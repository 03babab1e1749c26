-- ===== src/Status/Race.antt =====
-- Any number of calls of `updateStatusSnapshot` on one pointer, interleaved. The pointer is the
-- list that it points to with a version: each swap stores a fresh pointer, so that two loads return
-- the same pointer exactly if they see the same version.
use updater.Common.{
  ℕ, ◌+◌, ◌≤◌, ◌≡◌, refl, sym, subst, ◌≢◌, ◌↔◌, ◌⊎◌, inl, inr, Bool, true, false, none, some, List,
  [], ◌∷◌, arith, num_eq, if◌then◌else◌, Bool-cases, In, Text,
}
use updater.Status.{next_snapshot, update_snapshot}
use updater.Status.Order.{IsAscending}
use updater.Status.Members.{update_snapshot-In, update_snapshot-IsAscending}

pub record Cell : Type 0 where
  pub version : ℕ
  pub ids : List Text

-- Where a call stands: not begun or returned, about to load, or about to swap what it computed
-- from the list that it loaded.
pub data Call : Type 0 where
  idle : Call
  loading : Text → Bool → Call
  swapping : (id : Text) (add : Bool) (seen : Cell) (next : List Text) → Call

-- `log` holds the calls that took effect, the latest first.
pub record System : Type 0 where
  pub cell : Cell
  pub calls : ℕ → Call
  pub log : List (Text × Bool)

abbrev pub update : (ℕ → Call) → ℕ → Call → ℕ → Call
update calls k c j = if num_eq j k then c else calls j

pub data Step (s : System) : System → Type 0 where
  begin :
      (k : ℕ) (id : Text) (add : Bool)
      → s.calls k ≡ idle
      → Step s (record s { calls = update s.calls k (loading id add) })
  -- The loaded list needs no change, and the call returns.
  return_early :
      (k : ℕ) (id : Text) (add : Bool)
      → s.calls k ≡ loading id add
      → next_snapshot id add s.cell.ids ≡ none
      → Step s (record s { calls = update s.calls k idle; log = (id, add) ∷ s.log })
  load :
      (k : ℕ) (id : Text) (add : Bool) (next : List Text)
      → s.calls k ≡ loading id add
      → next_snapshot id add s.cell.ids ≡ some next
      → Step s (record s { calls = update s.calls k (swapping id add s.cell next) })
  swap :
      (k : ℕ) (id : Text) (add : Bool) (seen : Cell) (next : List Text)
      → s.calls k ≡ swapping id add seen next
      → seen.version ≡ s.cell.version
      → Step s (record {
        cell = record { version = s.cell.version + 1; ids = next };
        calls = update s.calls k idle;
        log = (id, add) ∷ s.log;
      })
  -- The pointer has changed since the load: the loop goes round.
  retry :
      (k : ℕ) (id : Text) (add : Bool) (seen : Cell) (next : List Text)
      → s.calls k ≡ swapping id add seen next
      → seen.version ≢ s.cell.version
      → Step s (record s { calls = update s.calls k (loading id add) })

pub data Reach (s : System) : System → Type 0 where
  here : Reach s s
  onward : {t u : System} → Reach s t → Step t u → Reach s u

abbrev pub start : System
start = record { cell = record { version = 0; ids = [] }; calls = λ k. idle; log = [] }

-- The calls of the log, one after the other.
unfoldable pub replay : List (Text × Bool) → List Text
replay [] = []
replay ((id, add) ∷ log) = update_snapshot id add (replay log)

-- A call about to swap has computed its list from one that the pointer has held.
abbrev Fits : Cell → Call → Type 0
Fits cell idle = Unit
Fits cell (loading id add) = Unit
Fits cell (swapping id add seen next) =
    (seen.version ≤ cell.version)
    × (seen.version ≡ cell.version → seen.ids ≡ cell.ids)
    × (next_snapshot id add seen.ids ≡ some next)

record IsGood (s : System) : Type 0 where
  replayed : s.cell.ids ≡ replay s.log
  fits : (k : ℕ) → Fits s.cell (s.calls k)

Fits-newer :
    (c : Call) (cell : Cell) (ids : List Text)
    → Fits cell c
    → Fits (record { version = cell.version + 1; ids = ids }) c
Fits-newer idle cell ids f = tt
Fits-newer (loading id add) cell ids f = tt
Fits-newer (swapping id add seen next) cell ids (le, same, e) =
    (omega arith, λ v. absurd (omega arith), e)

Fits-update :
    (calls : ℕ → Call) (k : ℕ) (c : Call) (cell : Cell)
    → ((j : ℕ) → Fits cell (calls j))
    → Fits cell c
    → (j : ℕ) → Fits cell (update calls k c j)
Fits-update calls k c cell all f j = elim (Bool-cases (num_eq j k)) [
  | inl e ↦ rw e f
  | inr e ↦ rw e (all j)
]

update_of_next :
    (id : Text) (add : Bool) (ids next : List Text)
    → next_snapshot id add ids ≡ some next
    → update_snapshot id add ids ≡ next
unfolding update_snapshot
update_of_next id add ids next h = rw (h, update_snapshot)

update_of_none :
    (id : Text) (add : Bool) (ids : List Text)
    → next_snapshot id add ids ≡ none
    → update_snapshot id add ids ≡ ids
unfolding update_snapshot
update_of_none id add ids h = rw (h, update_snapshot)

Step-IsGood : {s t : System} → Step s t → IsGood s → IsGood t
unfolding replay
Step-IsGood {s} (begin k id add e) g = record {
  replayed = g.replayed;
  fits = Fits-update s.calls k (loading id add) s.cell g.fits tt;
}
Step-IsGood {s} (return_early k id add e n) g = record {
  replayed = rw (← g.replayed) (sym (update_of_none id add s.cell.ids n));
  fits = Fits-update s.calls k idle s.cell g.fits tt;
}
Step-IsGood {s} (load k id add next e n) g = record {
  replayed = g.replayed;
  fits =
      Fits-update s.calls k (swapping id add s.cell next) s.cell g.fits
        (omega arith, (λ _. refl), n);
}
Step-IsGood {s} (swap k id add seen next e v) g =
    let (le, same, n) = subst (Fits s.cell) e (g.fits k) in
    record {
      replayed = rw (← g.replayed) (sym (update_of_next id add s.cell.ids next (rw (← same v) n)));
      fits =
          Fits-update s.calls k idle (record { version = s.cell.version + 1; ids = next })
            (λ j. Fits-newer (s.calls j) s.cell next (g.fits j)) tt;
    }
Step-IsGood {s} (retry k id add seen next e v) g = record {
  replayed = g.replayed;
  fits = Fits-update s.calls k (loading id add) s.cell g.fits tt;
}

Reach-IsGood : {s : System} → Reach start s → IsGood s
unfolding replay
Reach-IsGood here = record { replayed = refl; fits = λ k. tt }
Reach-IsGood (onward r st) = Step-IsGood st (Reach-IsGood r)

-- The latest call for `x` in the log is one that adds it.
abbrev pub IsActive : Text → List (Text × Bool) → Type 0
IsActive x [] = ⊥
IsActive x ((id, true) ∷ log) = (x ≡ id) ⊎ IsActive x log
IsActive x ((id, false) ∷ log) = (x ≢ id) × IsActive x log

replay-IsAscending : (log : List (Text × Bool)) → IsAscending (replay log)
unfolding replay
replay-IsAscending [] = tt
replay-IsAscending ((id, add) ∷ log) =
    update_snapshot-IsAscending id add (replay log) (replay-IsAscending log)

replay-In : (x : Text) (log : List (Text × Bool)) → In x (replay log) ↔ IsActive x log
unfolding replay
replay-In x [] = ((λ m. m), (λ m. m))
replay-In x ((id, true) ∷ log) =
    let (to, from) = replay-In x log in
    let (to', from') = update_snapshot-In id true (replay log) x (replay-IsAscending log) in
    (
      (λ m. elim (to' m) [ inl e ↦ inl e | inr l ↦ inr (to l) ]),
      λ a. from' (elim a [ inl e ↦ inl e | inr l ↦ inr (from l) ]),
    )
replay-In x ((id, false) ∷ log) =
    let (to, from) = replay-In x log in
    let (to', from') = update_snapshot-In id false (replay log) x (replay-IsAscending log) in
    ((λ m. ((to' m).0, to (to' m).1)), λ a. from' (a.0, from a.1))

-- However the calls of any number of goroutines interleave, no update is lost: the list is always
-- the one that the calls which took effect make when they run one after the other. It ascends with
-- no repetition, and an id is in it exactly if the latest of these calls for the id adds it.
pub Reach-snapshot :
    (s : System) (x : Text)
    → Reach start s
    → (s.cell.ids ≡ replay s.log) × IsAscending s.cell.ids × (In x s.cell.ids ↔ IsActive x s.log)
Reach-snapshot s x r =
    let e = (Reach-IsGood r).replayed in
    (e, rw e (replay-IsAscending s.log), rw e (replay-In x s.log))
