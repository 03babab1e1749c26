-- ===== src/Deps.antt =====
-- internal/deps/sorter.go: which containers restart because another one does, and the order in
-- which containers restart. A Go set is a list of names; the tests `m[name]` are `elem name m`.
pub mod Index
pub mod Order
pub mod Visit
pub mod Stops
pub mod Cycles
pub mod Fuel
pub mod Sorted
pub mod Implicit
use updater.Common.{
  ℕ, zero, suc, ◌+◌, ◌-◌, ◌*◌, ◌≤◌, ◌<◌, ◌≡◌, refl, sym, ap, ◌∙◌, subst, ◌≢◌, ◌↔◌, ◌⊎◌, inl, inr,
  Bool, true, false, not, ◌&&◌, ◌||◌, Option, none, some, List, [], ◌∷◌, ◌++◌, map, arith, ltb, leb,
  num_eq, if◌then◌else◌, ltb→lt, leb→le, num_eq_iff, Bool-cases, Option-cases, length, get_elem?,
  set, take, drop, last?, length-append, In, All, Distinct, Includes, In-append_left,
  In-append_right, In-append_cases, In-middle, All-append, All-In, All-of_In, All-map,
  Distinct-append, Result, ok, err, Text, codes, ◌==◌, eq_iff, eq_refl, is_empty, is_empty_iff,
  is_space, trim_left, trim_right, trim_left, trim_right, trim_space, to_lower, to_upper, fold_case,
  equal_fold, has_prefix, trim_prefix_of, trim_prefix, trim_suffix, contains, cut, before_sep,
  split, join, text_lt, trim_space_idem, has_prefix_iff, Map, lookup, insert, delete, elem,
  lookup-insert, lookup-delete, elem_iff, not-In_of_elem, text_functions, sort_texts, sort_texts-In,
  sort_texts-Distinct,
}
use updater.Docker.{Summary, InspectResponse}
use updater.Labels.{label_depends_on}
use updater.Compose.{trimmed_parts}

pub record ContainerWithDeps : Type 0 where
  pub container : Summary
  pub inspect : Option InspectResponse
  pub name : Text
  pub links : List Text
  pub depends_on : List Text
  pub network_deps : List Text

-- The map from a name to the last index at which it stands; `i` is the index of the first
-- container of the list.
unfoldable pub index_from : ℕ → Map ℕ → List ContainerWithDeps → Map ℕ
unfolding insert
index_from i index [] = index
index_from i index (c ∷ cs) = index_from (suc i) (insert index c.name i) cs

pub record ContainerSorter : Type 0 where
  pub containers : List ContainerWithDeps
  pub name_to_index : Map ℕ
  pub visited : List Text
  pub marked : List Text
  pub sorted : List ContainerWithDeps

unfoldable pub new_container_sorter : List ContainerWithDeps → ContainerSorter
unfolding index_from
new_container_sorter containers = record {
  containers = containers;
  name_to_index = index_from 0 [] containers;
  visited = [];
  marked = [];
  sorted = [];
}

-- Removes a name from a set.
unfoldable pub remove : Text → List Text → List Text
unfolding ◌==◌
remove a [] = []
remove a (x ∷ xs) = if x == a then remove a xs else x ∷ remove a xs

unfoldable pub dedupe_from : List Text → List Text → List Text
unfolding elem
dedupe_from seen [] = []
dedupe_from seen (dep ∷ deps) =
    let known = dedupe_from seen deps in
    let fresh = dep ∷ dedupe_from (dep ∷ seen) deps in if elem dep seen then known else fresh

unfoldable pub get_all_dependencies : ContainerWithDeps → List Text
unfolding dedupe_from
get_all_dependencies c = dedupe_from [] (c.links ++ (c.depends_on ++ c.network_deps))

-- How a visit ends: the sorter afterwards, the names of a cycle, or no fuel left.
pub data Outcome : Type 0 where
  done : ContainerSorter → Outcome
  cycle : List Text → Outcome
  out_of_fuel : Outcome

infixl 5 ◌>>=◌
abbrev pub ◌>>=◌ : Outcome → (ContainerSorter → Outcome) → Outcome
done s >>= f = f s
cycle names >>= f = cycle names
out_of_fuel >>= f = out_of_fuel

-- `cycle[slices.Index(cycle, name):]`, and all of it where the name is missing.
unfoldable pub from_name : Text → List Text → List Text → List Text
unfolding ◌==◌
from_name name whole [] = whole
from_name name whole (x ∷ xs) = if x == name then x ∷ xs else from_name name whole xs

-- `s.containers[idx]` for the index of a name, if it has one.
unfoldable pub container_named : ContainerSorter → Text → Option ContainerWithDeps
unfolding lookup
container_named s name = elim (lookup s.name_to_index name) [
  | none ↦ none
  | some idx ↦ get_elem? s.containers idx
]

-- The loop over the dependencies, with the call of `visit` passed in.
unfoldable pub visit_deps :
    (ContainerWithDeps → ContainerSorter → Outcome) → List Text → ContainerSorter → Outcome
unfolding container_named
visit_deps visit [] s = done s
visit_deps visit (dep ∷ deps) s = elim (container_named s dep) [
  | none ↦ visit_deps visit deps s
  | some c ↦ visit c s >>= visit_deps visit deps
]

abbrev mark : Text → ContainerSorter → ContainerSorter
mark name s = record s { marked = name ∷ s.marked }

abbrev placed : ContainerWithDeps → ContainerSorter → ContainerSorter
placed c s = record s {
  visited = s.visited ++ c.name ∷ [];
  sorted = s.sorted ++ c ∷ [];
  marked = remove c.name s.marked;
}

-- What follows the loop, with the deferred `delete(s.marked, c.Name)`.
unfoldable pub finish : ContainerWithDeps → ContainerSorter → Outcome
unfolding remove
finish c s = done (placed c s)

-- The recursion takes fuel. An error ends `sort`, which returns nothing of the sorter then.
unfoldable pub visit : ℕ → List Text → ContainerWithDeps → ContainerSorter → Outcome
unfolding elem from_name visit_deps finish get_all_dependencies
visit zero path c s = out_of_fuel
visit (suc fuel) path c s =
    if elem c.name s.marked
    then cycle (from_name c.name (path ++ c.name ∷ []) (path ++ c.name ∷ []))
    else if elem c.name s.visited
    then done s
    else visit_deps (visit fuel (path ++ c.name ∷ [])) (get_all_dependencies c) (mark c.name s)
      >>= finish c

unfoldable pub sort_loop : ℕ → List ContainerWithDeps → ContainerSorter → Outcome
unfolding elem visit
sort_loop fuel [] s = done s
sort_loop fuel (c ∷ cs) s =
    let next = visit fuel [] c s >>= sort_loop fuel cs in
    let rest = sort_loop fuel cs s in if elem c.name s.visited then rest else next

-- The fuel is one more than the number of containers.
unfoldable pub run_sort : List ContainerWithDeps → Outcome
unfolding sort_loop new_container_sorter
run_sort cs = sort_loop (suc (length cs)) cs (new_container_sorter cs)

unfoldable pub sort : List ContainerWithDeps → Result (List ContainerWithDeps)
unfolding run_sort join codes
sort cs = elim (run_sort cs) [
  | done s ↦ ok s.sorted
  | cycle names ↦ err (codes "circular dependency detected: " ++ join names (codes " -> "))
  | out_of_fuel ↦ err []
]

unfoldable pub link_names : List Text → List Text
unfolding before_sep trim_prefix codes
link_names [] = []
link_names (link ∷ links) = trim_prefix (before_sep link b':') (codes "/") ∷ link_names links

-- `is_container` is Docker's `NetworkMode.IsContainer`.
unfoldable pub extract_container_deps :
    (is_container : Text → Bool) → Text → Summary → InspectResponse → ContainerWithDeps
unfolding link_names split trimmed_parts lookup trim_prefix codes
extract_container_deps is_container name cnt inspect = record {
  container = cnt;
  inspect = some inspect;
  name = name;
  links = elim inspect.host_config [ none ↦ [] | some host ↦ link_names host.links ];
  depends_on = elim inspect.config [
    | none ↦ []
    | some config ↦ elim (lookup config.labels label_depends_on) [
      | none ↦ []
      | some deps ↦ trimmed_parts (split deps b',')
    ]
  ];
  network_deps = elim inspect.host_config [
    | none ↦ []
    | some host ↦
        if is_container host.network_mode
        then trim_prefix host.network_mode (codes "container:") ∷ []
        else []
  ];
}

unfoldable pub has_marked_dependency : List Text → List Text → Bool
unfolding elem
has_marked_dependency marked [] = false
has_marked_dependency marked (dep ∷ deps) = elem dep marked || has_marked_dependency marked deps

-- The marked names afterwards, and those that are newly marked, in order.
unfoldable pub update_implicit_restart : List ContainerWithDeps → List Text → List Text × List Text
unfolding elem has_marked_dependency
update_implicit_restart [] marked = (marked, [])
update_implicit_restart (c ∷ cs) marked =
    let skipped = update_implicit_restart cs marked in
    let (marked', added) = update_implicit_restart cs (c.name ∷ marked) in
    if elem c.name marked
    then skipped
    else if has_marked_dependency marked c.links
        || has_marked_dependency marked c.depends_on
        || has_marked_dependency marked c.network_deps
    then (marked', c.name ∷ added)
    else skipped
