-- ===== src/Tests/Sorting.antt =====
-- The theorems on the sorting of containers at concrete inputs.
use updater.Common.{
  ℕ, ◌<◌, ◌≡◌, subst, ◌⊎◌, inl, inr, none, List, [], ◌∷◌, ◌++◌, arith, length, In, ok, err, Text,
  codes, join,
}
use updater.Deps.{ContainerWithDeps, sort}
use updater.Deps.Index.{deps_of}
use updater.Deps.Cycles.{IsCycle}
use updater.Deps.Sorted.{IsSortOf, sort_total, sort-ok_of_ranked}
use updater.Tests.Data.{summary}

abbrev cwd : Text → List Text → ContainerWithDeps
cwd name deps = record {
  container = summary name (codes "web:1");
  inspect = none;
  name = name;
  links = [];
  depends_on = deps;
  network_deps = [];
}

-- A web server that depends on a database.
abbrev pub web_and_db : List ContainerWithDeps
web_and_db = cwd (codes "web") (codes "db" ∷ []) ∷ cwd (codes "db") [] ∷ []

abbrev pub looped : List ContainerWithDeps
looped = cwd (codes "a") (codes "b" ∷ []) ∷ cwd (codes "b") (codes "a" ∷ []) ∷ []

sort_total_example :
    ((sorted : List ContainerWithDeps) × (sort looped ≡ ok sorted) × IsSortOf looped sorted)
    ⊎ ((ns : List Text) × (sort looped
          ≡ err (codes "circular dependency detected: " ++ join ns (codes " -> ")))
        × IsCycle looped ns)
sort_total_example = sort_total looped

abbrev rank_by_length : Text → ℕ
rank_by_length name = length name

web_and_db_ranked :
    (c : ContainerWithDeps)
    → In c web_and_db
    → (d : Text) → In d (deps_of c)
    → rank_by_length d < rank_by_length c.name
unfolding codes
web_and_db_ranked c (inl e) d m = rw e (ranked d (subst (λ x. In d (deps_of x)) e m))
  where
    ranked : (d : Text) → In d (codes "db" ∷ []) → rank_by_length d < 3
    ranked d (inl e) = rw e (omega arith)
    ranked d (inr n) = absurd n
web_and_db_ranked c (inr (inl e)) d m = absurd (subst (λ x. In d (deps_of x)) e m)
web_and_db_ranked c (inr (inr n)) d m = absurd n

sort-ok_of_ranked_example : (sorted : List ContainerWithDeps) × (sort web_and_db ≡ ok sorted)
sort-ok_of_ranked_example = sort-ok_of_ranked web_and_db rank_by_length web_and_db_ranked
