-- ===== src/Deps/Fuel.antt =====
-- The sorter never runs out of fuel: every call below another marks one more container.
use updater.Common.{
  ℕ, zero, suc, ◌≤◌, ◌<◌, ◌≡◌, refl, ◌≢◌, inl, inr, false, List, [], ◌∷◌, ◌++◌, arith,
  if◌then◌else◌, Bool-cases, length, In, Text, eq_iff, elem,
}
use updater.Deps.{
  ContainerWithDeps, ContainerSorter, Outcome, out_of_fuel, new_container_sorter, visit_deps, mark,
  finish, get_all_dependencies, visit, run_sort,
}
use updater.Deps.Index.{names, In-names}
use updater.Deps.Order.{IsSound, mark-IsSound}
use updater.Deps.Visit.{visit-Step}
use updater.Deps.Stops.{bind-Stops, visit_deps-Stopped, sort_loop-Stopped}

-- How many containers are not marked.
unfoldable pub open_count : List ContainerWithDeps → List Text → ℕ
open_count [] marked = 0
open_count (c ∷ cs) marked =
    let rest = open_count cs marked in if elem c.name marked then rest else suc rest

pub open_count-le :
    (cs : List ContainerWithDeps) (marked : List Text) → open_count cs marked ≤ length cs
unfolding open_count
open_count-le [] marked = omega arith
open_count-le (c ∷ cs) marked = ground (arith, open_count-le cs marked)

open_count-mark-le :
    (cs : List ContainerWithDeps) (a : Text) (marked : List Text)
    → open_count cs (a ∷ marked) ≤ open_count cs marked
unfolding open_count elem
open_count-mark-le [] a marked = omega arith
open_count-mark-le (c ∷ cs) a marked = ground (arith, open_count-mark-le cs a marked)

pub open_count-mark-lt :
    (cs : List ContainerWithDeps) (a : Text) (marked : List Text)
    → In a (names cs)
    → elem a marked ≡ false
    → open_count cs (a ∷ marked) < open_count cs marked
unfolding open_count elem
open_count-mark-lt [] a marked m h = absurd m
open_count-mark-lt (c ∷ cs) a marked (inl e) h =
    ground (arith, open_count-mark-le cs a marked, eq_iff a c.name)
open_count-mark-lt (c ∷ cs) a marked (inr m) h = ground (arith, open_count-mark-lt cs a marked m h)

visit-ne-out_of_fuel :
    (cs : List ContainerWithDeps) (fuel : ℕ) (path : List Text) (c : ContainerWithDeps)
    (s : ContainerSorter)
    → In c cs
    → IsSound cs s
    → open_count cs s.marked < fuel
    → visit fuel path c s ≢ out_of_fuel
unfolding visit finish
visit-ne-out_of_fuel cs zero path c s listed i enough h = omega arith
visit-ne-out_of_fuel cs (suc fuel) path c s listed i enough h =
    elim (Bool-cases (elem c.name s.marked)) [
      | inl marked ↦ ground arith
      | inr unmarked ↦ elim (Bool-cases (elem c.name s.visited)) [
        | inl old ↦ ground arith
        | inr new ↦
            elim (bind-Stops (visit_deps v (get_all_dependencies c) (mark c.name s)) (finish c)
              {o = out_of_fuel} tt (ground arith)) [
                | inr (t, _, e) ↦ cc
                | inl e ↦
                    let r =
                      visit_deps-Stopped cs v (get_all_dependencies c) (mark c.name s)
                        {o = out_of_fuel} (visit-Step cs fuel (path ++ c.name ∷ []))
                        (mark-IsSound c.name i) tt e in
                    let less =
                      open_count-mark-lt cs c.name s.marked (In-names c cs listed) unmarked in
                    visit-ne-out_of_fuel cs fuel (path ++ c.name ∷ []) r.culprit r.state r.listed
                      r.sound (rw r.same_marks (omega (arith, less))) r.stopped
              ]
      ]
    ]
  where
    v : ContainerWithDeps → ContainerSorter → Outcome
    v = visit fuel (path ++ c.name ∷ [])

pub new-IsSound : (cs : List ContainerWithDeps) → IsSound cs (new_container_sorter cs)
unfolding new_container_sorter
new-IsSound cs = record {
  is_for = record { same_containers = refl; same_index = refl };
  same_names = refl;
  listed = tt;
  ordered = tt;
  distinct = tt;
}

-- The fuel that `run_sort` gives is always enough: sorting ends with an order or with a cycle.
pub run_sort-ne-out_of_fuel : (cs : List ContainerWithDeps) → run_sort cs ≢ out_of_fuel
unfolding run_sort
run_sort-ne-out_of_fuel cs h =
    let (c, t, listed, sound, marks, e) =
      sort_loop-Stopped cs (suc (length cs)) cs (new_container_sorter cs) {o = out_of_fuel}
        (λ a m. m) (new-IsSound cs) tt h in
    visit-ne-out_of_fuel cs (suc (length cs)) [] c t listed sound
      (omega (arith, open_count-le cs t.marked)) e
