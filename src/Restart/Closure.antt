-- ===== src/Restart/Closure.antt =====
-- The restarts that follow from the dependencies.
use updater.Common.{
  ℕ, zero, suc, ◌<◌, ◌≡◌, refl, sym, ◌∙◌, subst, ◌≢◌, ◌↔◌, ◌⊎◌, inl, inr, some, List, [], ◌∷◌,
  arith, length, In, Includes, Text,
}
use updater.Deps.{ContainerWithDeps, update_implicit_restart}
use updater.Deps.Index.{deps_of}
use updater.Deps.Fuel.{open_count, open_count-le}
use updater.Deps.Implicit.{
  IsInherited, IsClosed, update-inherits, update-grows, update-IsClosed, update-lt,
}
use updater.Restart.Scan.{RestartScan, plan_implied, propagate_rounds, propagate_implicit_restarts}

-- `n` restarts: it is marked at first, or it is the name of a container that names a container
-- that restarts as one of its dependencies.
pub data Restarts (cs : List ContainerWithDeps) (marked : List Text) : Text → Type 0 where
  at_first : {n : Text} → In n marked → Restarts cs marked n
  follows :
      (c : ContainerWithDeps) (d : Text)
      → In c cs
      → In d (deps_of c)
      → Restarts cs marked d
      → Restarts cs marked c.name

Restarts-IsInherited :
    (cs : List ContainerWithDeps) (marked : List Text) → IsInherited cs (Restarts cs marked)
Restarts-IsInherited cs marked c l d m r = follows c d l m r

-- A closed set that has the marked names has every name that restarts.
Restarts-In :
    (cs : List ContainerWithDeps) (marked closed : List Text)
    → Includes marked closed
    → IsClosed cs closed
    → (n : Text) → Restarts cs marked n
    → In n closed
Restarts-In cs marked closed sub up n (at_first m) = sub n m
Restarts-In cs marked closed sub up _ (follows c d l m r) =
    up c l d m (Restarts-In cs marked closed sub up d r)

-- What the propagation promises of the scan that it returns.
abbrev pub IsPropagated : RestartScan → RestartScan → Type 0
IsPropagated scan after =
    (after.containers ≡ scan.containers)
    × ((n : Text)
        → In n after.marked_for_restart ↔ Restarts scan.containers scan.marked_for_restart n)

abbrev pub round : RestartScan → RestartScan
round scan = record scan {
  marked_for_restart = (update_implicit_restart scan.containers scan.marked_for_restart).0;
  plans_by_name =
      plan_implied scan.plans_by_name
        (update_implicit_restart scan.containers scan.marked_for_restart).1;
}

pub shape : (xs : List Text) → (xs ≡ []) ⊎ ((x : Text) × (ys : List Text) × (xs ≡ x ∷ ys))
shape [] = inl refl
shape (x ∷ ys) = inr (x, ys, refl)

abbrev pub added_by : RestartScan → List Text
added_by scan = (update_implicit_restart scan.containers scan.marked_for_restart).1

pub propagate_rounds-last :
    (fuel : ℕ) (scan : RestartScan)
    → added_by scan ≡ []
    → propagate_rounds (suc fuel) scan ≡ some (round scan)
unfolding propagate_rounds
propagate_rounds-last fuel scan e = rw (e, propagate_rounds) (rw e refl)

pub propagate_rounds-next :
    (fuel : ℕ) (scan : RestartScan) {x : Text} {ys : List Text}
    → added_by scan ≡ x ∷ ys
    → propagate_rounds (suc fuel) scan ≡ propagate_rounds fuel (round scan)
unfolding propagate_rounds
propagate_rounds-next fuel scan e = rw (e, propagate_rounds) (rw e refl)

cons_ne : {x : Text} {xs ys : List Text} → xs ≡ x ∷ ys → xs ≢ []
cons_ne e f = cc

-- The rounds start from a scan all of whose marked names restart.
propagate_rounds-IsPropagated :
    (fuel : ℕ) (scan start : RestartScan)
    → open_count scan.containers scan.marked_for_restart < fuel
    → scan.containers ≡ start.containers
    → Includes start.marked_for_restart scan.marked_for_restart
    → ((n : Text)
        → In n scan.marked_for_restart
        → Restarts start.containers start.marked_for_restart n)
    → (after : RestartScan) × (propagate_rounds fuel scan ≡ some after) × IsPropagated start after
propagate_rounds-IsPropagated zero scan start enough same sub sound = absurd (omega arith)
propagate_rounds-IsPropagated (suc fuel) scan start enough same sub sound =
    let cs = scan.containers in
    let marked = scan.marked_for_restart in
    let goes : IsInherited cs (Restarts start.containers start.marked_for_restart) =
      λ c l. Restarts-IsInherited _ _ c (subst (In c) same l) in
    let sound' =
      update-inherits (Restarts start.containers start.marked_for_restart) cs marked goes sound in
    elim (shape (added_by scan)) [
      | inl none_added ↦
          let (still, closed) = update-IsClosed cs marked none_added in
          (
            round scan,
            propagate_rounds-last fuel scan none_added,
            (
              same,
              λ n. (
                sound' n,
                λ r. update-grows cs marked n (
                    Restarts-In start.containers _ marked sub
                      (λ c l. closed c (subst (In c) (sym same) l)) n r),
              ),
            ),
          )
      | inr (x, ys, some_added) ↦
          let less = update-lt cs cs marked (λ a m. m) (cons_ne some_added) in
          let (after, e, done) =
            propagate_rounds-IsPropagated fuel (round scan) start (omega (arith, less, enough)) same
              (λ a m. update-grows cs marked a (sub a m)) sound' in
          (after, propagate_rounds-next fuel scan some_added ∙ e, done)
    ]

-- The propagation ends, whatever the dependencies are, cycles included: one round more than there
-- are containers is enough. It marks a name exactly if the name was marked at first or follows
-- from marked names along the dependencies, and it keeps the containers.
pub propagate_implicit_restarts-IsPropagated :
    (scan : RestartScan)
    → (after : RestartScan) × (propagate_implicit_restarts scan ≡ some after)
      × IsPropagated scan after
unfolding propagate_implicit_restarts
propagate_implicit_restarts-IsPropagated scan =
    propagate_rounds-IsPropagated (suc (length scan.containers)) scan scan
      (omega (arith, open_count-le scan.containers scan.marked_for_restart)) refl (λ a m. m)
      (λ n m. at_first m)
