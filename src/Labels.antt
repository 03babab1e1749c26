-- ===== src/Labels.antt =====
-- labels/labels.go: the container labels that tell the updater what a container is.
-- A label map is a list of entries in the order in which `range` meets them.
pub mod Lookup
pub mod Roles
use updater.Common.{
  ℕ, zero, suc, ◌+◌, ◌-◌, ◌*◌, ◌≤◌, ◌<◌, ◌≡◌, refl, sym, ap, ◌∙◌, subst, ◌≢◌, ◌↔◌, ◌⊎◌, inl, inr,
  Bool, true, false, not, ◌&&◌, ◌||◌, Option, none, some, List, [], ◌∷◌, ◌++◌, map, arith, ltb, leb,
  num_eq, if◌then◌else◌, ltb→lt, leb→le, num_eq_iff, Bool-cases, Option-cases, length, get_elem?,
  set, take, drop, last?, length-append, In, All, Distinct, Includes, In-append_left,
  In-append_right, In-append_cases, In-middle, All-append, All-In, All-of_In, All-map,
  Distinct-append, Result, ok, err, Text, codes, ◌==◌, eq_iff, eq_refl, is_empty, is_empty_iff,
  is_space, trim_left, trim_right, trim_left, trim_right, trim_space, to_lower, to_upper, fold_case,
  equal_fold, has_prefix, trim_prefix_of, trim_prefix, trim_suffix, contains, cut, before_sep,
  split, join, text_lt, trim_space_idem, has_prefix_iff, Map, lookup, insert, delete, elem,
  lookup-insert, lookup-delete, elem_iff, not-In_of_elem, text_functions, sort_texts, sort_texts-In,
  sort_texts-Distinct,
}

abbrev pub label_arcane : Text
label_arcane = codes "com.getarcaneapp.arcane"

abbrev pub label_arcane_legacy_server : Text
label_arcane_legacy_server = codes "com.getarcaneapp.arcane.server"

abbrev pub label_arcane_agent : Text
label_arcane_agent = codes "com.getarcaneapp.arcane.agent"

abbrev pub label_updater : Text
label_updater = codes "com.getarcaneapp.arcane.updater"

abbrev pub label_swarm_service_id : Text
label_swarm_service_id = codes "com.docker.swarm.service.id"

abbrev pub label_swarm_service_name : Text
label_swarm_service_name = codes "com.docker.swarm.service.name"

abbrev pub label_depends_on : Text
label_depends_on = codes "com.getarcaneapp.arcane.depends-on"

abbrev pub label_stop_signal : Text
label_stop_signal = codes "com.getarcaneapp.arcane.stop-signal"

unfoldable pub lookup_label : Map Text → Text → Option Text
unfolding equal_fold
lookup_label [] target = none
lookup_label ((key, value) ∷ labels) target =
    if equal_fold key target then some value else lookup_label labels target

unfoldable pub is_truthy_label_value : Text → Bool
unfolding trim_space to_lower ◌==◌ codes
is_truthy_label_value value =
    let word = trim_space (to_lower value) in
    word == codes "true" || word == codes "1" || word == codes "yes" || word == codes "on"

unfoldable pub has_truthy_label : Map Text → Text → Bool
unfolding lookup_label is_truthy_label_value
has_truthy_label labels target = elim (lookup_label labels target) [
  | none ↦ false
  | some value ↦ is_truthy_label_value value
]

unfoldable pub has_non_empty_label : Map Text → Text → Bool
unfolding lookup_label trim_space is_empty
has_non_empty_label labels target = elim (lookup_label labels target) [
  | none ↦ false
  | some value ↦ not (is_empty (trim_space value))
]

unfoldable pub is_arcane_agent_container : Map Text → Bool
unfolding has_truthy_label codes
is_arcane_agent_container labels = has_truthy_label labels label_arcane_agent

unfoldable pub is_arcane_container : Map Text → Bool
unfolding has_truthy_label is_arcane_agent_container codes
is_arcane_container labels =
    has_truthy_label labels label_arcane
    || has_truthy_label labels label_arcane_legacy_server
    || is_arcane_agent_container labels

unfoldable pub is_arcane_server_container : Map Text → Bool
unfolding has_truthy_label is_arcane_agent_container codes
is_arcane_server_container labels =
    (has_truthy_label labels label_arcane || has_truthy_label labels label_arcane_legacy_server)
    && not (is_arcane_agent_container labels)

unfoldable pub container_ids_match : Text → Text → Bool
unfolding trim_space is_empty ◌==◌ has_prefix
container_ids_match a b =
    let x = trim_space a in
    let y = trim_space b in
    if is_empty x || is_empty y then false else x == y || has_prefix x y || has_prefix y x

-- The last argument is the error of looking up the own container, `none` for nil.
unfoldable pub should_disable_arcane_server_redeploy : Map Text → Text → Text → Option Text → Bool
unfolding is_arcane_server_container container_ids_match trim_space is_empty
should_disable_arcane_server_redeploy labels container_id current_id (some error) =
    is_arcane_server_container labels
should_disable_arcane_server_redeploy labels container_id current_id none =
    if not (is_arcane_server_container labels)
    then false
    else if is_empty (trim_space current_id)
    then true
    else container_ids_match container_id current_id

unfoldable pub is_update_disabled : Map Text → Bool
unfolding lookup_label trim_space to_lower ◌==◌ codes
is_update_disabled labels = elim (lookup_label labels label_updater) [
  | none ↦ false
  | some value ↦
      let word = trim_space (to_lower value) in
      word == codes "false" || word == codes "0" || word == codes "no" || word == codes "off"
]

unfoldable pub is_swarm_task : Map Text → Bool
unfolding has_non_empty_label codes
is_swarm_task labels =
    has_non_empty_label labels label_swarm_service_id
    || has_non_empty_label labels label_swarm_service_name

unfoldable pub stop_signal : Map Text → Text
unfolding lookup_label trim_space to_upper codes
stop_signal labels = elim (lookup_label labels label_stop_signal) [
  | none ↦ []
  | some value ↦ trim_space (to_upper value)
]
