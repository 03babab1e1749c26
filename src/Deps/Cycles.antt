-- ===== src/Deps/Cycles.antt =====
-- An error of the sorter names a real cycle of dependencies.
use updater.Common.{
  ℕ, zero, suc, ◌<◌, ◌≡◌, refl, ap, subst, inl, inr, false, List, [], ◌∷◌, ◌++◌, arith, Bool-cases,
  length, In, Includes, In-append_left, In-middle, Text, ◌==◌, eq_iff, elem, elem_iff,
}
use updater.Deps.{
  ContainerWithDeps, ContainerSorter, Outcome, cycle, new_container_sorter, from_name, visit_deps,
  mark, finish, get_all_dependencies, visit, run_sort,
}
use updater.Deps.Index.{deps_of, get_all_dependencies-In}
use updater.Deps.Order.{IsSound, mark-IsSound}
use updater.Deps.Visit.{visit-Step}
use updater.Deps.Stops.{bind-Stops, visit_deps-Stopped, sort_loop-Stopped}
use updater.Deps.Fuel.{new-IsSound}

-- A container named `a` depends on the name `b`.
abbrev pub DependsOn : List ContainerWithDeps → Text → Text → Type 0
DependsOn cs a b = (c : ContainerWithDeps) × In c cs × (c.name ≡ a) × In b (deps_of c)

-- Each name depends on the next.
abbrev pub IsChain : List ContainerWithDeps → List Text → Type 0
IsChain cs [] = Unit
IsChain cs (a ∷ []) = Unit
IsChain cs (a ∷ b ∷ path) = DependsOn cs a b × IsChain cs (b ∷ path)

-- The names begin and end with one name, and each depends on the next.
pub record IsCycle (cs : List ContainerWithDeps) (ns : List Text) : Type 0 where
  pub start : Text
  pub between : List Text
  pub closed : ns ≡ start ∷ (between ++ start ∷ [])
  pub chain : IsChain cs ns

IsChain-snoc :
    (cs : List ContainerWithDeps) (path : List Text) (a b : Text)
    → IsChain cs (path ++ a ∷ [])
    → DependsOn cs a b
    → IsChain cs ((path ++ a ∷ []) ++ b ∷ [])
IsChain-snoc cs [] a b h e = (e, tt)
IsChain-snoc cs (x ∷ []) a b h e = (h.0, (e, tt))
IsChain-snoc cs (x ∷ y ∷ path) a b h e = (h.0, IsChain-snoc cs (y ∷ path) a b h.1 e)

IsChain-tail :
    (cs : List ContainerWithDeps) (x : Text) (path : List Text)
    → IsChain cs (x ∷ path)
    → IsChain cs path
IsChain-tail cs x [] h = tt
IsChain-tail cs x (y ∷ path) h = h.1

from_name-IsCycle :
    (cs : List ContainerWithDeps) (name : Text) (whole path : List Text)
    → In name path
    → IsChain cs (path ++ name ∷ [])
    → IsCycle cs (from_name name whole (path ++ name ∷ []))
unfolding from_name
from_name-IsCycle cs name whole [] m h = absurd m
from_name-IsCycle cs name whole (x ∷ path) m h = elim (Bool-cases (x == name)) [
  | inl same ↦
      rw (same, from_name)
        (record { start = name; between = path; closed = rw ((eq_iff x name).0 same); chain = h })
  | inr other ↦
      rw (other, from_name)
        (from_name-IsCycle cs name whole path (later other m)
          (IsChain-tail cs x (path ++ name ∷ []) h))
]
  where
    later : (x == name) ≡ false → In name (x ∷ path) → In name path
    later other (inl e) = absurd (ground (arith, eq_iff x name))
    later other (inr l) = l

visit-IsCycle :
    (cs : List ContainerWithDeps) (fuel : ℕ) (path : List Text) (c : ContainerWithDeps)
    (s : ContainerSorter) {ns : List Text}
    → In c cs
    → IsSound cs s
    → Includes s.marked path
    → IsChain cs (path ++ c.name ∷ [])
    → visit fuel path c s ≡ cycle ns
    → IsCycle cs ns
unfolding visit finish
visit-IsCycle cs zero path c s listed i sub chain h = cc
visit-IsCycle cs (suc fuel) path c s {ns} listed i sub chain h =
    elim (Bool-cases (elem c.name s.marked)) [
      | inl marked ↦
          let same : from_name c.name (path ++ c.name ∷ []) (path ++ c.name ∷ []) ≡ ns =
            ground arith in
          subst (IsCycle cs) same (
            from_name-IsCycle cs c.name (path ++ c.name ∷ []) path
              (sub c.name ((elem_iff c.name s.marked).0 marked)) chain)
      | inr unmarked ↦ elim (Bool-cases (elem c.name s.visited)) [
        | inl old ↦ absurd (ground arith)
        | inr new ↦
            elim (bind-Stops (visit_deps v (get_all_dependencies c) (mark c.name s)) (finish c)
              {o = cycle ns} tt (ground arith)) [
                | inr (t, _, e) ↦ cc
                | inl e ↦
                    let r =
                      visit_deps-Stopped cs v (get_all_dependencies c) (mark c.name s)
                        {o = cycle ns} (visit-Step cs fuel (path ++ c.name ∷ []))
                        (mark-IsSound c.name i) tt e in
                    visit-IsCycle cs fuel (path ++ c.name ∷ []) r.culprit r.state r.listed r.sound
                      (rw r.same_marks longer)
                      (IsChain-snoc cs path c.name r.culprit.name chain
                        (c, listed, refl, (get_all_dependencies-In r.culprit.name c).0 r.named))
                      r.stopped
              ]
      ]
    ]
  where
    v : ContainerWithDeps → ContainerSorter → Outcome
    v = visit fuel (path ++ c.name ∷ [])

    longer : Includes (c.name ∷ s.marked) (path ++ c.name ∷ [])
    longer a (inl e) = rw e (In-middle c.name path [])
    longer a (inr m) = In-append_left a path (c.name ∷ []) (sub a m)

-- The names that a failed sort reports form a cycle of the given containers: the first and the
-- last name agree, and each container depends on the next.
pub run_sort-IsCycle :
    (cs : List ContainerWithDeps) (ns : List Text) → run_sort cs ≡ cycle ns → IsCycle cs ns
unfolding run_sort
run_sort-IsCycle cs ns h =
    let (c, t, listed, sound, marks, e) =
      sort_loop-Stopped cs (suc (length cs)) cs (new_container_sorter cs) {o = cycle ns} (λ a m. m)
        (new-IsSound cs) tt h in
    visit-IsCycle cs (suc (length cs)) [] c t listed sound (nothing t marks) tt e
  where
    nothing :
        (t : ContainerSorter) → t.marked ≡ (new_container_sorter cs).marked → Includes t.marked []
    nothing t marks a m = subst (In a) marks m

IsChain-ranked :
    (cs : List ContainerWithDeps) (rank : Text → ℕ)
    → ((c : ContainerWithDeps) → In c cs → (d : Text) → In d (deps_of c) → rank d < rank c.name)
    → (a b : Text) (mid : List Text) → IsChain cs (a ∷ (mid ++ b ∷ []))
    → rank b < rank a
IsChain-ranked cs rank falls a b [] ((c, m, e, d), _) = omega (arith, falls c m b d, ap rank e)
IsChain-ranked cs rank falls a b (x ∷ mid) ((c, m, e, d), h) =
    omega (arith, falls c m x d, ap rank e, IsChain-ranked cs rank falls x b mid h)

-- Dependencies that can be ranked have no cycle.
pub IsCycle-ranked :
    (cs : List ContainerWithDeps) (rank : Text → ℕ) {ns : List Text}
    → ((c : ContainerWithDeps) → In c cs → (d : Text) → In d (deps_of c) → rank d < rank c.name)
    → ¬ IsCycle cs ns
IsCycle-ranked cs rank falls c =
    let less =
      IsChain-ranked cs rank falls c.start c.start c.between
        (subst (IsChain cs) c.closed c.chain) in
    omega (arith, less)
