-- ===== src/MemoryStore.antt =====
-- memory_store.go: the pending updates that are kept in memory. The mutex makes each method one
-- step. `ctx_err` is the error of the caller's context, `none` while it is live.
pub mod Laws
use updater.Common.{
  ℕ, zero, suc, ◌+◌, ◌-◌, ◌*◌, ◌≤◌, ◌<◌, ◌≡◌, refl, sym, ap, ◌∙◌, subst, ◌≢◌, ◌↔◌, ◌⊎◌, inl, inr,
  Bool, true, false, not, ◌&&◌, ◌||◌, Option, none, some, List, [], ◌∷◌, ◌++◌, map, arith, ltb, leb,
  num_eq, if◌then◌else◌, ltb→lt, leb→le, num_eq_iff, Bool-cases, Option-cases, length, get_elem?,
  set, take, drop, last?, length-append, In, All, Distinct, Includes, In-append_left,
  In-append_right, In-append_cases, In-middle, All-append, All-In, All-of_In, All-map,
  Distinct-append, Result, ok, err, Text, codes, ◌==◌, eq_iff, eq_refl, is_empty, is_empty_iff,
  is_space, trim_left, trim_right, trim_left, trim_right, trim_space, to_lower, to_upper, fold_case,
  equal_fold, has_prefix, trim_prefix_of, trim_prefix, trim_suffix, contains, cut, before_sep,
  split, join, text_lt, trim_space_idem, has_prefix_iff, Map, lookup, insert, delete, elem,
  lookup-insert, lookup-delete, elem_iff, not-In_of_elem, text_functions, sort_texts, sort_texts-In,
  sort_texts-Distinct,
}
use updater.Types.{ImageUpdateRecord, image_ref}

abbrev pub Store : Type 0
Store = Map ImageUpdateRecord

unfoldable pub memory_pending_store_key : ImageUpdateRecord → Text
memory_pending_store_key record_ = if is_empty record_.id then image_ref record_ else record_.id

unfoldable pub put_records : Store → List ImageUpdateRecord → Store
put_records store [] = store
put_records store (r ∷ rs) = put_records (insert store (memory_pending_store_key r) r) rs

unfoldable pub new_memory_pending_store : List ImageUpdateRecord → Store
unfolding put_records
new_memory_pending_store records = put_records [] records

-- `s.records[key]` for each key; a key that is missing would give the zero record, and is left out.
unfoldable pub records_at : Store → List Text → List ImageUpdateRecord
records_at store [] = []
records_at store (k ∷ ks) = elim (lookup store k) [
  | none ↦ records_at store ks
  | some r ↦ r ∷ records_at store ks
]

unfoldable pub pending_image_updates : Option Text → Store → Result (List ImageUpdateRecord)
unfolding records_at
pending_image_updates (some e) store = err e
pending_image_updates none store = ok (records_at store (sort_texts (map (λ entry. entry.0) store)))

unfoldable pub clear_image_update_record :
    Option Text → ImageUpdateRecord → Store → Option Text × Store
clear_image_update_record (some e) r store = (some e, store)
clear_image_update_record none r store = (none, delete store (memory_pending_store_key r))
