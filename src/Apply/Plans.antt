-- ===== src/Apply/Plans.antt =====
-- apply.go: the plans of a run, from the pending records and the images in use.
use updater.Common.{
  Bool, true, false, not, ◌&&◌, ◌||◌, Option, none, some, List, [], ◌∷◌, ◌++◌, if◌then◌else◌,
  Result, ok, err, Text, is_empty, trim_space, elem,
}
use updater.Libraries.{Libraries}
use updater.Docker.{Summary, InspectResponse, ImageInspect, ContainerConfig}
use updater.Types.{ImageUpdateRecord, needs_update, is_digest_update, image_ref, new_image_ref}
use updater.LabelPolicy
use updater.Refs.{normalize_image_update_ref}
use updater.Match.{append_image_update_record_id_to_old_ids}
use updater.DigestCheck.{
  Checker, check_image_matches_known_digest, check_image_needs_update, get_image_ids_for_ref,
  ids_or_none,
}
use updater.Hooks.{docker_client}
use updater.Restart.{should_skip_summary, excluded_container_set, running_only}
use updater.Ports.{Request, DockerClient, Config, Action, pure, ask, ◌>>=◌}

pub record UpdatePlan : Type 0 where
  pub record_ : ImageUpdateRecord
  pub old_ref : Text
  pub new_ref : Text
  pub old_ids : List Text
  pub pulled : Bool
  pub restart_failed : Bool

-- The trimmed old IDs that are not blank.
unfoldable pub seen_ids : List Text → List Text
seen_ids [] = []
seen_ids (old_id ∷ old_ids) =
    let id = trim_space old_id in if is_empty id then seen_ids old_ids else id ∷ seen_ids old_ids

unfoldable pub any_seen : List Text → List Text → Bool
any_seen seen [] = false
any_seen seen (new_id ∷ new_ids) = elem (trim_space new_id) seen || any_seen seen new_ids

unfoldable pub image_ids_overlap : List Text → List Text → Bool
unfolding seen_ids any_seen
image_ids_overlap old_ids new_ids = any_seen (seen_ids old_ids) new_ids

-- `if record.LatestDigest != nil { if knownDigest := strings.TrimSpace(…); knownDigest != "" {`.
abbrev pub known_digest : Option Text → Option Text
known_digest none = none
known_digest (some latest) =
    let known = trim_space latest in if is_empty known then none else some known

abbrev no_error : Option Text → Bool
no_error none = true
no_error (some e) = false

module _ (lib : Libraries) where
  unfoldable pub check_registry : Checker → Text → Action Bool
  check_registry checker ref = do
    check ← check_image_needs_update lib checker ref
    pure (check.checked_via_api && no_error check.error && not check.needs_update)

  unfoldable pub check_known : Checker → Text → Text → Action Bool
  check_known checker ref known = do
    check ← check_image_matches_known_digest lib checker ref known
    pure (no_error check.error && not check.needs_update)

  unfoldable pub plan_image_up_to_date : Checker → UpdatePlan → Action Bool
  unfolding check_registry check_known
  plan_image_up_to_date checker plan =
      let ref = normalize_image_update_ref lib plan.new_ref in
      if is_digest_update plan.record_
      then elim (known_digest plan.record_.latest_digest) [
        | some known ↦ check_known checker ref known
        | none ↦ check_registry checker ref
      ]
      else check_registry checker ref

  -- `none` where the record gives no plan.
  unfoldable pub plan_of : Checker → List Text → ImageUpdateRecord → Action (Option UpdatePlan)
  plan_of checker used r =
      let old_ref = image_ref r in
      let old_norm = normalize_image_update_ref lib old_ref in
      if not (needs_update r)
      then pure none
      else if is_empty old_ref
      then pure none
      else if is_empty old_norm
      then pure none
      else if not (elem old_norm used)
      then pure none
      else get_image_ids_for_ref lib checker old_ref >>= λ ids. pure (
          some (record {
            record_ = r;
            old_ref = old_ref;
            new_ref = new_image_ref r;
            old_ids = append_image_update_record_id_to_old_ids (ids_or_none lib ids) r.id;
            pulled = false;
            restart_failed = false;
          }))

  unfoldable pub build_update_plans :
      Checker → List Text → List ImageUpdateRecord → Action (List UpdatePlan)
  unfolding plan_of
  build_update_plans checker used [] = pure []
  build_update_plans checker used (r ∷ rs) = do
    plan ← plan_of checker used r
    plans ← build_update_plans checker used rs
    elim plan [ none ↦ pure plans | some p ↦ pure (p ∷ plans) ]

  -- The normalized references of the texts, without the blank ones.
  unfoldable pub normalized_refs : List Text → List Text
  normalized_refs [] = []
  normalized_refs (tag ∷ tags) =
      let normalized = normalize_image_update_ref lib tag in
      if is_empty normalized then normalized_refs tags else normalized ∷ normalized_refs tags

  abbrev config_images : Option ContainerConfig → List Text
  config_images none = []
  config_images (some c) = c.image ∷ []

  abbrev repo_tags : Result ImageInspect → List Text
  repo_tags (err e) = []
  repo_tags (ok image) = image.repo_tags

  -- The set of the tags, which may hold one twice.
  unfoldable pub normalized_tags_for_container : DockerClient → InspectResponse → Action (List Text)
  unfolding normalized_refs
  normalized_tags_for_container docker inspect = do
    image ← ask (Request.image_inspect inspect.image) (λ h. docker.image_inspect h inspect.image)
    pure (normalized_refs (repo_tags image) ++ normalized_refs (config_images inspect.config))

  module _ (config : Config) where
    abbrev pub config_disabled : Option ContainerConfig → Bool
    config_disabled none = false
    config_disabled (some c) = LabelPolicy.is_update_disabled config.label_policy c.labels

    -- The references that one listed container adds.
    unfoldable pub used_by : DockerClient → List Text → Summary → Action (List Text)
    unfolding normalized_tags_for_container
    used_by docker excluded summary =
        let listed = normalize_image_update_ref lib summary.image in
        if should_skip_summary summary excluded [] config.label_policy
        then pure []
        else if not (is_empty listed)
        then pure (listed ∷ [])
        else ask (Request.container_inspect summary.id) (λ h. docker.container_inspect h summary.id)
          >>= λ answer. elim answer [
            | err e ↦ pure []
            | ok inspect ↦
                if config_disabled inspect.config
                then pure []
                else normalized_tags_for_container docker inspect
          ]

    unfoldable pub used_by_all : DockerClient → List Text → List Summary → Action (List Text)
    unfolding used_by
    used_by_all docker excluded [] = pure []
    used_by_all docker excluded (c ∷ cs) = do
      refs ← used_by docker excluded c
      more ← used_by_all docker excluded cs
      pure (refs ++ more)

    unfoldable pub used_images : Action (Result (List Text))
    unfolding used_by_all
    used_images = elim config.used_image_collector [
      | some collector ↦ ask Request.used_images collector
      | none ↦ do
        client ← docker_client config
        elim client [
          | err e ↦ pure (err e)
          | ok docker ↦ do
            excluded ← excluded_container_set lib config
            elim excluded [
              | err e ↦ pure (err e)
              | ok names ↦ do
                listed ←
                    ask (Request.container_list (running_only lib config))
                      (λ h. docker.container_list h (running_only lib config))
                elim listed [
                  | err e ↦ pure (err e)
                  | ok summaries ↦ do refs ← used_by_all docker names summaries; pure (ok refs)
                ]
            ]
        ]
    ]
