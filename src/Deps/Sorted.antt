-- ===== src/Deps/Sorted.antt =====
-- What a successful sort returns.
use updater.Common.{
  ℕ, suc, ◌<◌, ◌≡◌, refl, subst, ◌⊎◌, inl, inr, List, [], ◌++◌, arith, length, In, All, Distinct,
  Includes, ok, err, Text, codes, join,
}
use updater.Deps.{
  ContainerWithDeps, Outcome, done, cycle, out_of_fuel, new_container_sorter, run_sort, sort,
}
use updater.Deps.Index.{names, deps_of}
use updater.Deps.Order.{IsOrdered}
use updater.Deps.Visit.{sort_loop-Step}
use updater.Deps.Fuel.{new-IsSound, run_sort-ne-out_of_fuel}
use updater.Deps.Cycles.{IsCycle, IsCycle-ranked, run_sort-IsCycle}

-- The list holds one given container for each name, and each stands behind its dependencies.
pub record IsSortOf (cs sorted : List ContainerWithDeps) : Type 0 where
  pub listed : All (λ c. In c cs) sorted
  pub complete : Includes (names cs) (names sorted)
  pub distinct : Distinct (names sorted)
  pub ordered : IsOrdered cs [] sorted

abbrev Succeeds : List ContainerWithDeps → Type 0
Succeeds cs = (sorted : List ContainerWithDeps) × (sort cs ≡ ok sorted) × IsSortOf cs sorted

abbrev Fails : List ContainerWithDeps → Type 0
Fails cs =
    (ns : List Text) × (sort cs
      ≡ err (codes "circular dependency detected: " ++ join ns (codes " -> ")))
    × IsCycle cs ns

sort_outcome :
    (cs : List ContainerWithDeps) (o : Outcome) → run_sort cs ≡ o → Succeeds cs ⊎ Fails cs
unfolding sort
sort_outcome cs (done s) h =
    let (st, all) =
      sort_loop-Step cs (suc (length cs)) cs (new_container_sorter cs) s (λ a m. m) (new-IsSound cs)
        h in
    inl (
      s.sorted,
      rw (h, sort),
      record {
        listed = st.sound.listed;
        complete = all;
        distinct = st.sound.distinct;
        ordered = st.sound.ordered;
      },
    )
sort_outcome cs (cycle ns) h = inr (ns, rw (h, sort), run_sort-IsCycle cs ns h)
sort_outcome cs out_of_fuel h = absurd (run_sort-ne-out_of_fuel cs h)

-- Sorting ends in one of two ways. It succeeds with a list that holds one of the given containers
-- for each of their names, in which every container stands behind all of its dependencies that
-- were given. Or it fails with an error that spells out a real cycle of the given containers.
pub sort_total : (cs : List ContainerWithDeps) → Succeeds cs ⊎ Fails cs
sort_total cs = sort_outcome cs (run_sort cs) refl

-- A list that comes back from a successful sort is such an order.
pub sort-IsSortOf : (cs sorted : List ContainerWithDeps) → sort cs ≡ ok sorted → IsSortOf cs sorted
sort-IsSortOf cs sorted h = elim (sort_total cs) [
  | inl (found, e, good) ↦ let same : found ≡ sorted = ground arith in subst (IsSortOf cs) same good
  | inr (ns, e, _) ↦ absurd (ground arith)
]

-- Containers whose dependencies can be ranked are always sorted: no error is returned.
pub sort-ok_of_ranked :
    (cs : List ContainerWithDeps) (rank : Text → ℕ)
    → ((c : ContainerWithDeps) → In c cs → (d : Text) → In d (deps_of c) → rank d < rank c.name)
    → (sorted : List ContainerWithDeps) × (sort cs ≡ ok sorted)
sort-ok_of_ranked cs rank falls = elim (sort_total cs) [
  | inl (sorted, e, _) ↦ (sorted, e)
  | inr (ns, e, c) ↦ absurd (IsCycle-ranked cs rank falls c)
]
