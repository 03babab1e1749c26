-- ===== src/Deps/Visit.antt =====
-- A visit that succeeds keeps the sorter sound and places its container.
use updater.Common.{
  ℕ, zero, suc, ◌≡◌, refl, sym, ◌∙◌, subst, inl, inr, List, [], ◌∷◌, ◌++◌, arith, Bool-cases,
  Option-cases, In, Includes, Text, elem, elem_iff, not-In_of_elem,
}
use updater.Deps.{
  ContainerWithDeps, ContainerSorter, Outcome, done, cycle, out_of_fuel, ◌>>=◌, container_named,
  visit_deps, mark, placed, finish, get_all_dependencies, visit, sort_loop,
}
use updater.Deps.Index.{names, container_named-In, container_named-eq-none, get_all_dependencies-In}
use updater.Deps.Order.{IsSound, Step, Step-refl, Step-trans, mark-IsSound, placed-Step}

bind-eq-done :
    (o : Outcome) (f : ContainerSorter → Outcome) {u : ContainerSorter}
    → (o >>= f) ≡ done u
    → (t : ContainerSorter) × (o ≡ done t) × (f t ≡ done u)
bind-eq-done (done t) f h = (t, refl, h)
bind-eq-done (cycle _) f h = cc
bind-eq-done out_of_fuel f h = cc

module _ (cs : List ContainerWithDeps) where
  -- What a visit guarantees of the containers that it is called on.
  abbrev pub Places : (ContainerWithDeps → ContainerSorter → Outcome) → Type 0
  Places v =
      (c : ContainerWithDeps) (s u : ContainerSorter)
      → In c cs
      → IsSound cs s
      → v c s ≡ done u
      → Step cs s u × In c.name (names u.sorted)

  visit_deps-Step :
      (v : ContainerWithDeps → ContainerSorter → Outcome) (ds : List Text) (s u : ContainerSorter)
      → Places v
      → IsSound cs s
      → visit_deps v ds s ≡ done u
      → Step cs s u × ((d : Text) → In d ds → In d (names cs) → In d (names u.sorted))
  unfolding visit_deps
  visit_deps-Step v [] s u p i h =
      let same : s ≡ u = ground arith in (subst (Step cs s) same (Step-refl i), λ d m n. absurd m)
  visit_deps-Step v (dep ∷ ds) s u p i h = elim (Option-cases (container_named s dep)) [
    | inl e ↦
        let (st, all) = visit_deps-Step v ds s u p i (rw (e, visit_deps) at h) in
        (
          st,
          λ d m n. elim m [
            | inl same ↦ absurd (container_named-eq-none i.is_for dep e (rw (← same) n))
            | inr later ↦ all d later n
          ],
        )
    | inr (c, e) ↦
        let (t, first, rest) = bind-eq-done (v c s) (visit_deps v ds) (rw (e, visit_deps) at h) in
        let (listed, named) = container_named-In i.is_for dep e in
        let (a, there) = p c s t listed i first in
        let (b, all) = visit_deps-Step v ds t u p a.sound rest in
        (
          Step-trans a b,
          λ d m n. elim m [
            | inl same ↦ b.grows d (subst (λ x. In x (names t.sorted)) (named ∙ sym same) there)
            | inr later ↦ all d later n
          ],
        )
  ]

  pub visit-Step : (fuel : ℕ) (path : List Text) → Places (visit fuel path)
  unfolding visit finish
  visit-Step zero path c s u listed i h = cc
  visit-Step (suc fuel) path c s u listed i h = elim (Bool-cases (elem c.name s.marked)) [
    | inl marked ↦ absurd (ground arith)
    | inr unmarked ↦ elim (Bool-cases (elem c.name s.visited)) [
      | inl old ↦
          let same : s ≡ u = ground arith in
          (
            subst (Step cs s) same (Step-refl i),
            subst (λ x. In c.name (names x.sorted)) same
                (rw (← i.same_names) ((elem_iff c.name s.visited).0 old)),
          )
      | inr new ↦
          let (t, deps, end) =
            bind-eq-done
              (visit_deps (visit fuel (path ++ c.name ∷ [])) (get_all_dependencies c)
                (mark c.name s))
              (finish c) {u = u} (ground arith) in
          let (st, all) =
            visit_deps-Step (visit fuel (path ++ c.name ∷ [])) (get_all_dependencies c)
              (mark c.name s) t (visit-Step fuel (path ++ c.name ∷ [])) (mark-IsSound c.name i)
              deps in
          let same : placed c t ≡ u = ground arith in
          subst (λ x. Step cs s x × In c.name (names x.sorted)) same
            (placed-Step c listed i (not-In_of_elem c.name s.marked unmarked)
              (rw i.same_names at (not-In_of_elem c.name s.visited new)) st
              (λ d m n. all d ((get_all_dependencies-In d c).1 m) n))
    ]
  ]

  pub sort_loop-Step :
      (fuel : ℕ) (xs : List ContainerWithDeps) (s u : ContainerSorter)
      → Includes xs cs
      → IsSound cs s
      → sort_loop fuel xs s ≡ done u
      → Step cs s u × Includes (names xs) (names u.sorted)
  unfolding sort_loop
  sort_loop-Step fuel [] s u sub i h =
      let same : s ≡ u = ground arith in (subst (Step cs s) same (Step-refl i), λ a m. absurd m)
  sort_loop-Step fuel (c ∷ xs) s u sub i h = elim (Bool-cases (elem c.name s.visited)) [
    | inl old ↦
        let (st, all) = sort_loop-Step fuel xs s u (λ a m. sub a (inr m)) i (ground arith) in
        (
          st,
          λ a m. elim m [
            | inl e ↦ st.grows a (rw (e, ← i.same_names) ((elem_iff c.name s.visited).0 old))
            | inr l ↦ all a l
          ],
        )
    | inr new ↦
        let (t, first, rest) =
          bind-eq-done (visit fuel [] c s) (sort_loop fuel xs) {u = u} (ground arith) in
        let (a, there) = visit-Step fuel [] c s t (sub c (inl refl)) i first in
        let (b, all) = sort_loop-Step fuel xs t u (λ x m. sub x (inr m)) a.sound rest in
        (
          Step-trans a b,
          λ x m. elim m [
            | inl e ↦ b.grows x (subst (λ n. In n (names t.sorted)) (sym e) there)
            | inr l ↦ all x l
          ],
        )
  ]
