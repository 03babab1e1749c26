-- ===== src/Status.antt =====
-- status.go: the containers and projects that are being updated, as a sorted list behind an atomic
-- pointer. On a sorted list `slices.BinarySearch` returns the first position whose element is not
-- below the target, which is what `binary_search` finds from the front.
pub mod Order
pub mod Members
pub mod Race
use updater.Common.{
  ℕ, zero, suc, ◌+◌, ◌-◌, ◌*◌, ◌≤◌, ◌<◌, ◌≡◌, refl, sym, ap, ◌∙◌, subst, ◌≢◌, ◌↔◌, ◌⊎◌, inl, inr,
  Bool, true, false, not, ◌&&◌, ◌||◌, Option, none, some, List, [], ◌∷◌, ◌++◌, map, arith, ltb, leb,
  num_eq, if◌then◌else◌, ltb→lt, leb→le, num_eq_iff, Bool-cases, Option-cases, length, get_elem?,
  set, take, drop, last?, length-append, In, All, Distinct, Includes, In-append_left,
  In-append_right, In-append_cases, In-middle, All-append, All-In, All-of_In, All-map,
  Distinct-append, Result, ok, err, Text, codes, ◌==◌, eq_iff, eq_refl, is_empty, is_empty_iff,
  is_space, trim_left, trim_right, trim_left, trim_right, trim_space, to_lower, to_upper, fold_case,
  equal_fold, has_prefix, trim_prefix_of, trim_prefix, trim_suffix, contains, cut, before_sep,
  split, join, text_lt, trim_space_idem, has_prefix_iff, Map, lookup, insert, delete, elem,
  lookup-insert, lookup-delete, elem_iff, not-In_of_elem, text_functions, sort_texts, sort_texts-In,
  sort_texts-Distinct,
}

unfoldable pub search_index : List Text → Text → ℕ
search_index [] id = 0
search_index (x ∷ xs) id = let rest = search_index xs id in if text_lt x id then suc rest else 0

abbrev holds : Option Text → Text → Bool
holds none id = false
holds (some x) id = x == id

unfoldable pub binary_search : List Text → Text → ℕ × Bool
unfolding search_index
binary_search ids id = let index = search_index ids id in (index, holds (get_elem? ids index) id)

-- One turn of the loop of `updateStatusSnapshot` on the list that it loaded: `none` where it
-- returns at once, and else the list that it offers to `CompareAndSwap`.
unfoldable pub next_snapshot : Text → Bool → List Text → Option (List Text)
unfolding binary_search
next_snapshot id true current =
    let (index, found) = binary_search current id in
    if found then none else some (take index current ++ (id ∷ drop index current))
next_snapshot id false current =
    let (index, found) = binary_search current id in
    if found then some (take index current ++ drop (index + 1) current) else none

-- What a call makes of the list when nothing happens between its load and its swap.
unfoldable pub update_snapshot : Text → Bool → List Text → List Text
unfolding next_snapshot
update_snapshot id add current = elim (next_snapshot id add current) [
  | none ↦ current
  | some next ↦ next
]

-- `statusSnapshot`: a copy of the list; a nil pointer reads as the empty list.
unfoldable pub status_snapshot : Option (List Text) → List Text
status_snapshot none = []
status_snapshot (some ids) = ids

pub record Status : Type 0 where
  pub updating_containers : ℕ
  pub updating_projects : ℕ
  pub container_ids : List Text
  pub project_ids : List Text

unfoldable pub status : Option (List Text) → Option (List Text) → Status
unfolding status_snapshot
status containers projects =
    let container_ids = status_snapshot containers in
    let project_ids = status_snapshot projects in
    record {
      updating_containers = length container_ids;
      updating_projects = length project_ids;
      container_ids = container_ids;
      project_ids = project_ids;
    }

-- `beginStatusUpdate`: the call made at once and the one that the returned func makes, if any.
unfoldable pub begin_status_update : Text → Option (Text × Text)
begin_status_update id =
    let trimmed = trim_space id in if is_empty trimmed then none else some (trimmed, trimmed)
