-- ===== src/Refs.antt =====
-- refs/reference.go: one spelling for each image reference, and the references that can be pulled.
pub mod Pullable
use updater.Common.{
  ℕ, zero, suc, ◌+◌, ◌-◌, ◌*◌, ◌≤◌, ◌<◌, ◌≡◌, refl, sym, ap, ◌∙◌, subst, ◌≢◌, ◌↔◌, ◌⊎◌, inl, inr,
  Bool, true, false, not, ◌&&◌, ◌||◌, Option, none, some, List, [], ◌∷◌, ◌++◌, map, arith, ltb, leb,
  num_eq, if◌then◌else◌, ltb→lt, leb→le, num_eq_iff, Bool-cases, Option-cases, length, get_elem?,
  set, take, drop, last?, length-append, In, All, Distinct, Includes, In-append_left,
  In-append_right, In-append_cases, In-middle, All-append, All-In, All-of_In, All-map,
  Distinct-append, Result, ok, err, Text, codes, ◌==◌, eq_iff, eq_refl, is_empty, is_empty_iff,
  is_space, trim_left, trim_right, trim_left, trim_right, trim_space, to_lower, to_upper, fold_case,
  equal_fold, has_prefix, trim_prefix_of, trim_prefix, trim_suffix, contains, cut, before_sep,
  split, join, text_lt, trim_space_idem, has_prefix_iff, Map, lookup, insert, delete, elem,
  lookup-insert, lookup-delete, elem_iff, not-In_of_elem, text_functions, sort_texts, sort_texts-In,
  sort_texts-Distinct,
}
use updater.Libraries.{Libraries}
use updater.RegistryHost

pub record Reference : Type 0 where
  pub normalized_ref : Text
  pub registry_host : Text
  pub repository : Text
  pub tag : Text

unfoldable pub is_image_id_like_reference : Text → Bool
is_image_id_like_reference ref = has_prefix (to_lower (trim_space ref)) (codes "sha256:")

module _ (lib : Libraries) where
  unfoldable pub normalize_reference : Text → Result Reference
  normalize_reference image_ref =
      let trimmed = trim_space image_ref in
      let name : Text = elim (cut trimmed b'@') [
        | none ↦ trimmed
        | some (before, after) ↦ before
      ] in
      elim (lib.parse_normalized_named name) [
        | err e ↦
            err (codes "invalid image reference " ++ (lib.quote image_ref ++ (codes ": " ++ e)))
        | ok named ↦
            let registry_host = RegistryHost.normalize lib named.domain in
            let tag : Text = elim named.tag [ none ↦ codes "latest" | some tag ↦ tag ] in
            ok (record {
              normalized_ref = registry_host ++ (codes "/" ++ (named.path ++ (codes ":" ++ tag)));
              registry_host = registry_host;
              repository = named.path;
              tag = tag;
            })
      ]

  unfoldable pub is_digest_pinned_reference : Text → Bool
  is_digest_pinned_reference ref = elim (cut (trim_space ref) b'@') [
    | none ↦ false
    | some (before, digest_value) ↦ elim (lib.parse_digest (trim_space digest_value)) [
      | err e ↦ false
      | ok parsed ↦ true
    ]
  ]

  unfoldable pub normalize_image_update_ref : Text → Text
  normalize_image_update_ref image_ref =
      if is_digest_pinned_reference image_ref
      then []
      else elim (normalize_reference image_ref) [ err e ↦ [] | ok parts ↦ parts.normalized_ref ]

  unfoldable pub normalize_keys_into : Map Text → Map Text → Map Text
  normalize_keys_into out [] = out
  normalize_keys_into out ((image_ref, value) ∷ m) =
      let normalized = normalize_image_update_ref image_ref in
      normalize_keys_into (if is_empty normalized then out else insert out normalized value) m

  unfoldable pub normalize_image_update_ref_map_keys : Map Text → Map Text
  normalize_image_update_ref_map_keys m = normalize_keys_into [] m

  unfoldable pub is_mutable_pullable_ref : Text → Bool
  is_mutable_pullable_ref image_ref =
      let ref = trim_space image_ref in
      not (is_empty ref)
      && not (is_image_id_like_reference ref)
      && not (is_digest_pinned_reference ref)

  unfoldable pub first_pullable_tag : List Text → Text
  first_pullable_tag [] = []
  first_pullable_tag (tag ∷ tags) =
      let trimmed = trim_space tag in
      if trimmed == codes "<none>:<none>" || not (is_mutable_pullable_ref trimmed)
      then first_pullable_tag tags
      else trimmed

  unfoldable pub pullable_image_ref : Text → Text → List Text → Text
  pullable_image_ref summary_image inspect_config_image repo_tags =
      if is_mutable_pullable_ref (trim_space inspect_config_image)
      then trim_space inspect_config_image
      else if is_mutable_pullable_ref (trim_space summary_image)
      then trim_space summary_image
      else first_pullable_tag repo_tags
