-- ===== src/Deps/Order.antt =====
-- What a sorter that has placed some of the containers satisfies.
use mathlib.Core.List.{map-append}
use updater.Common.{
  ◌≡◌, refl, sym, ◌∙◌, subst, ◌⊎◌, inl, inr, List, [], ◌∷◌, ◌++◌, arith, In, All, Distinct,
  Includes, In-append_left, In-append_cases, In-middle, All-append, Distinct-append, Text, eq_iff,
  eq_refl,
}
use updater.Deps.{ContainerWithDeps, ContainerSorter, remove, mark, placed}
use updater.Deps.Index.{names, IsFor, deps_of}

-- Each container stands behind all of its dependencies that are names of `cs`, or these are among
-- `before`.
abbrev pub IsOrdered : List ContainerWithDeps → List Text → List ContainerWithDeps → Type 0
IsOrdered cs before [] = Unit
IsOrdered cs before (c ∷ xs) =
    ((d : Text) → In d (deps_of c) → In d (names cs) → In d before)
    × IsOrdered cs (c.name ∷ before) xs

IsOrdered-snoc :
    (cs : List ContainerWithDeps) (before : List Text) (xs : List ContainerWithDeps)
    (c : ContainerWithDeps)
    → IsOrdered cs before xs
    → ((d : Text) → In d (deps_of c) → In d (names cs) → In d before ⊎ In d (names xs))
    → IsOrdered cs before (xs ++ c ∷ [])
IsOrdered-snoc cs before [] c h k = (λ d m n. elim (k d m n) [ inl b ↦ b | inr e ↦ absurd e ], tt)
IsOrdered-snoc cs before (x ∷ xs) c (h, hs) k = (
  h,
  IsOrdered-snoc cs (x.name ∷ before) xs c hs λ d m n. elim (k d m n) [
    | inl b ↦ inl (inr b)
    | inr (inl e) ↦ inl (inl e)
    | inr (inr l) ↦ inr l
  ],
)

pub record IsSound (cs : List ContainerWithDeps) (s : ContainerSorter) : Type 0 where
  pub is_for : IsFor cs s
  pub same_names : s.visited ≡ names s.sorted
  pub listed : All (λ c. In c cs) s.sorted
  pub ordered : IsOrdered cs [] s.sorted
  pub distinct : Distinct (names s.sorted)

-- What a call that succeeds does to the sorter.
pub record Step (cs : List ContainerWithDeps) (s s' : ContainerSorter) : Type 0 where
  pub sound : IsSound cs s'
  pub marks : s'.marked ≡ s.marked
  pub grows : Includes (names s.sorted) (names s'.sorted)
  pub spares : (m : Text) → In m s.marked → In m (names s'.sorted) → In m (names s.sorted)

pub Step-refl : {cs : List ContainerWithDeps} {s : ContainerSorter} → IsSound cs s → Step cs s s
Step-refl i = record { sound = i; marks = refl; grows = λ a m. m; spares = λ m h n. n }

pub Step-trans :
    {cs : List ContainerWithDeps} {s t u : ContainerSorter}
    → Step cs s t
    → Step cs t u
    → Step cs s u
Step-trans a b = record {
  sound = b.sound;
  marks = b.marks ∙ a.marks;
  grows = λ n m. b.grows n (a.grows n m);
  spares = λ n h m. a.spares n h (b.spares n (rw a.marks h) m);
}

pub mark-IsSound :
    (name : Text) {cs : List ContainerWithDeps} {s : ContainerSorter}
    → IsSound cs s
    → IsSound cs (mark name s)
mark-IsSound name i = record {
  is_for = record { same_containers = i.is_for.same_containers; same_index = i.is_for.same_index };
  same_names = i.same_names;
  listed = i.listed;
  ordered = i.ordered;
  distinct = i.distinct;
}

remove_absent : (a : Text) (xs : List Text) → ¬ In a xs → remove a xs ≡ xs
unfolding remove
remove_absent a [] h = refl
remove_absent a (x ∷ xs) h = ground (arith, eq_iff x a, remove_absent a xs (λ m. h (inr m)), h)

pub remove_marked : (a : Text) (xs : List Text) → ¬ In a xs → remove a (a ∷ xs) ≡ xs
unfolding remove
remove_marked a xs h = ground (arith, eq_refl a, remove_absent a xs h)

names-snoc :
    (xs : List ContainerWithDeps) (c : ContainerWithDeps)
    → names (xs ++ c ∷ []) ≡ names xs ++ c.name ∷ []
names-snoc xs c = map-append _ xs (c ∷ [])

-- The end of a visit: the container is placed behind its dependencies.
module _ {cs : List ContainerWithDeps} {s t : ContainerSorter} (c : ContainerWithDeps)
    (listed : In c cs) (i : IsSound cs s) (unmarked : ¬ In c.name s.marked)
    (unvisited : ¬ In c.name (names s.sorted)) (st : Step cs (mark c.name s) t)
    (covered : (d : Text) → In d (deps_of c) → In d (names cs) → In d (names t.sorted)) where
  placed-IsSound : IsSound cs (placed c t)
  placed-IsSound = record {
    is_for = record {
      same_containers = st.sound.is_for.same_containers;
      same_index = st.sound.is_for.same_index;
    };
    same_names = rw st.sound.same_names (sym (names-snoc t.sorted c));
    listed = All-append (λ x. In x cs) t.sorted (c ∷ []) st.sound.listed (listed, tt);
    ordered = IsOrdered-snoc cs [] t.sorted c st.sound.ordered (λ d m n. inr (covered d m n));
    distinct =
        rw (names-snoc t.sorted c)
          (Distinct-append (names t.sorted) (c.name ∷ []) st.sound.distinct ((λ e. e), tt) fresh);
  }
    where
      fresh : (a : Text) → In a (names t.sorted) → ¬ In a (c.name ∷ [])
      fresh a m (inl e) =
          unvisited (st.spares c.name (inl refl) (subst (λ n. In n (names t.sorted)) e m))
      fresh a m (inr e) = e

  pub placed-Step : Step cs s (placed c t) × In c.name (names (placed c t).sorted)
  placed-Step = (
    record {
      sound = placed-IsSound;
      marks = rw st.marks (remove_marked c.name s.marked unmarked);
      grows = λ n m. rw (names-snoc t.sorted c) (In-append_left n _ _ (st.grows n m));
      spares = λ m h n.
          elim (In-append_cases m (names t.sorted) (c.name ∷ [])
            (rw (names-snoc t.sorted c) at n)) [
              | inl l ↦ st.spares m (inr h) l
              | inr (inl e) ↦ absurd (unmarked (subst (λ x. In x s.marked) e h))
              | inr (inr e) ↦ absurd e
            ];
    },
    rw (names-snoc t.sorted c) (In-middle c.name (names t.sorted) []),
  )
