-- ===== src/Match.antt =====
-- internal/match/matching.go: which running containers an applied image update concerns.
pub mod Verify
pub mod Quiet
use updater.Common.{
  ℕ, zero, suc, ◌+◌, ◌-◌, ◌*◌, ◌≤◌, ◌<◌, ◌≡◌, refl, sym, ap, ◌∙◌, subst, ◌≢◌, ◌↔◌, ◌⊎◌, inl, inr,
  Bool, true, false, not, ◌&&◌, ◌||◌, Option, none, some, List, [], ◌∷◌, ◌++◌, map, arith, ltb, leb,
  num_eq, if◌then◌else◌, ltb→lt, leb→le, num_eq_iff, Bool-cases, Option-cases, length, get_elem?,
  set, take, drop, last?, length-append, In, All, Distinct, Includes, In-append_left,
  In-append_right, In-append_cases, In-middle, All-append, All-In, All-of_In, All-map,
  Distinct-append, Result, ok, err, Text, codes, ◌==◌, eq_iff, eq_refl, is_empty, is_empty_iff,
  is_space, trim_left, trim_right, trim_left, trim_right, trim_space, to_lower, to_upper, fold_case,
  equal_fold, has_prefix, trim_prefix_of, trim_prefix, trim_suffix, contains, cut, before_sep,
  split, join, text_lt, trim_space_idem, has_prefix_iff, Map, lookup, insert, delete, elem,
  lookup-insert, lookup-delete, elem_iff, not-In_of_elem, text_functions, sort_texts, sort_texts-In,
  sort_texts-Distinct,
}
use updater.Libraries.{Libraries}
use updater.Docker.{Summary, InspectResponse, ListOptions}
use updater.Ports.{Request, DockerClient, Action, pure, ask, ◌>>=◌}
use updater.Digest
use updater.Refs.{is_image_id_like_reference, normalize_image_update_ref}
use updater.Compose.{project_label, service_label, project_label_key, service_label_key}

unfoldable pub append_image_update_record_id_to_old_ids : List Text → Text → List Text
append_image_update_record_id_to_old_ids old_ids record_id =
    let id = trim_space record_id in
    if not (is_image_id_like_reference id)
    then old_ids
    else if elem id old_ids
    then old_ids
    else old_ids ++ id ∷ []

-- A new reference and the value that matched; both are empty where nothing matched.
abbrev pub Match : Type 0
Match = Text × Text

abbrev pub no_match : Match
no_match = ([], [])

-- `if newRef != "" { return }`.
abbrev or_match : Match → Match → Match
or_match m rest = if is_empty m.0 then rest else m

-- `if id != "" { if nr, ok := m[id]; ok { return nr, id } }`; `none` goes on.
unfoldable pub id_match : Text → Map Text → Option Match
id_match id m =
    if is_empty id then none else elim (lookup m id) [ none ↦ none | some nr ↦ some (nr, id) ]

module _ (lib : Libraries) where
  unfoldable pub resolve_image_ref_match : Text → Map Text → Match
  resolve_image_ref_match image_ref updated_norm =
      let ref = trim_space image_ref in
      if is_empty ref || is_image_id_like_reference ref
      then no_match
      else let norm = normalize_image_update_ref lib ref in
        if is_empty norm
        then no_match
        else elim (lookup updated_norm norm) [ none ↦ no_match | some nr ↦ (nr, norm) ]

  -- The matches by name, in the order in which they are tried.
  unfoldable pub ref_matches : Summary → Option InspectResponse → Map Text → Match
  ref_matches c none updated_norm = or_match (resolve_image_ref_match c.image updated_norm) no_match
  ref_matches c (some inspect) updated_norm =
      let by_config : Match = elim inspect.config [
        | none ↦ no_match
        | some config ↦ resolve_image_ref_match config.image updated_norm
      ] in
      or_match (resolve_image_ref_match c.image updated_norm) (
        or_match by_config (or_match (resolve_image_ref_match inspect.image updated_norm) no_match))

  unfoldable pub resolve_container_image_match :
      Summary → Option InspectResponse → Map Text → Map Text → Match
  resolve_container_image_match c inspect old_id_to_new_ref updated_norm =
      elim (id_match c.image_id old_id_to_new_ref) [
        | some m ↦ m
        | none ↦
            let by_inspect : Option Match = elim inspect [
              | none ↦ none
              | some i ↦ id_match i.image old_id_to_new_ref
            ] in
            elim by_inspect [ some m ↦ m | none ↦ ref_matches c inspect updated_norm ]
      ]

  unfoldable pub should_inspect_unmatched_container_for_image_match : Summary → Bool
  should_inspect_unmatched_container_for_image_match c =
      let image_ref = trim_space c.image in
      if is_empty image_ref || is_image_id_like_reference image_ref
      then true
      else elim (Digest.from_reference_suffix lib image_ref) [
        | none ↦ false
        | some digest ↦
            not (is_empty (project_label c.labels)) || not (is_empty (service_label c.labels))
      ]

unfoldable pub current_container_image_id : Summary → Option InspectResponse → Text
current_container_image_id c inspect =
    let image_id = trim_space c.image_id in
    if is_empty image_id then elim inspect [ none ↦ [] | some i ↦ trim_space i.image ] else image_id

abbrev still_running : Text → Text → Text → Text
still_running project service old_image_id =
    codes "compose service "
    ++ (project
        ++ (codes "/"
            ++ (service
                ++ (codes " still running old image " ++ (old_image_id ++ codes " after update")))))

module _ (docker : DockerClient) where
  -- The image ID of a listed container, by inspection where the list has none.
  unfoldable pub listed_image_id : Summary → Action (Result Text)
  listed_image_id c =
      let image_id = trim_space c.image_id in
      if is_empty image_id
      then (ask (Request.container_inspect c.id) (λ h. docker.container_inspect h c.id)
          >>= λ inspected. elim inspected [
            | err e ↦ pure (
                err (
                  codes "verify compose service image: inspect container "
                  ++ (c.id ++ (codes ": " ++ e))))
            | ok i ↦ pure (ok (trim_space i.image))
          ])
      else pure (ok image_id)

  -- The check of one container, and what follows it.
  unfoldable pub verify_current :
      (project service old_image_id : Text)
      → Action (Option Text)
      → Result Text
      → Action (Option Text)
  verify_current project service old_image_id rest (err e) = pure (some e)
  verify_current project service old_image_id rest (ok image_id) =
      if image_id == old_image_id
      then pure (some (still_running project service old_image_id))
      else rest

  unfoldable pub verify_containers :
      (project service old_image_id : Text) → List Summary → Action (Option Text)
  unfolding verify_current
  verify_containers project service old_image_id [] = pure none
  verify_containers project service old_image_id (c ∷ cs) =
      listed_image_id c
      >>= verify_current project service old_image_id
          (verify_containers project service old_image_id cs)

  -- The list options that select the containers of one compose service.
  abbrev pub service_filters : Text → Text → ListOptions
  service_filters project service = record {
    all = false;
    filters =
        (codes "label", project_label_key ++ (codes "=" ++ project))
        ∷ (codes "label", service_label_key ++ (codes "=" ++ service))
        ∷ [];
  }

  unfoldable pub verify_listed :
      (project service old_image_id : Text) → Result (List Summary) → Action (Option Text)
  unfolding verify_containers
  verify_listed project service old (err e) =
      pure (some (codes "verify compose service image: list containers: " ++ e))
  verify_listed project service old (ok []) = pure (
      some (
        codes "compose service "
        ++ (project ++ (codes "/" ++ (service ++ codes " has no running container after update")))))
  verify_listed project service old (ok (c ∷ cs)) = verify_containers project service old (c ∷ cs)

-- A nil client, or a blank name or image ID, leaves nothing to verify.
unfoldable pub verify_compose_service_updated_image :
    Option DockerClient → Text → Text → Text → Action (Option Text)
unfolding verify_listed
verify_compose_service_updated_image none project_name service_name old_image_id = pure none
verify_compose_service_updated_image (some docker) project_name service_name old_image_id =
    let project = trim_space project_name in
    let service = trim_space service_name in
    let old = trim_space old_image_id in
    let options = service_filters docker project service in
    if is_empty project || is_empty service || is_empty old
    then pure none
    else ask (Request.container_list options) (λ h. docker.container_list h options)
      >>= verify_listed docker project service old
