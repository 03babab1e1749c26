-- ===== src/Container/Update.antt =====
-- container.go: `UpdateContainer`, which updates one container, and what it clears afterwards.
use updater.Common.{
  ℕ, true, false, not, ◌&&◌, ◌||◌, Option, none, some, List, [], ◌∷◌, ◌++◌, if◌then◌else◌, ok, err,
  Text, codes, ◌==◌, is_empty, trim_space,
}
use updater.Libraries.{Libraries}
use updater.Docker.{Summary, InspectResponse, ListOptions}
use updater.Types.{
  Options, ResourceResult, RunResult, ImageUpdateRecord, skipped, container, new_image_ref,
}
use updater.LabelPolicy
use updater.Compose.{project_label, service_label}
use updater.Refs.{pullable_image_ref, normalize_image_update_ref}
use updater.DigestCheck.{compare_with_pulled}
use updater.Results.{
  new_timed_result, finish_result, failed_container_result, skipped_container_result,
  updated_container_result, labels_from_inspect,
}
use updater.Hooks.{
  with_status, docker_client, notify, trigger_self_update, is_self_update_candidate,
  err_image_puller_required, err_container_not_found,
}
use updater.Container.Settings.{container_summary_name}
use updater.Container.Rebuild.{update_standalone_container}
use updater.Ports.{
  Request, DockerClient, PendingStore, ProjectUpdater, Config, Action, pure, ask, ◌>>=◌, ◌>>◌,
}

-- What a run returns: its result, `none` for nil, and its error.
abbrev pub Outcome : Type 0
Outcome = Option RunResult × Option Text

abbrev pub fail : Text → Outcome
fail e = (none, some e)

abbrev pub finish : RunResult → Outcome
finish out = (some (finish_result none out), none)

-- The result of a run of one item, with the counters that its branch sets.
abbrev one_failed : ResourceResult → ℕ → RunResult
one_failed item checked = record new_timed_result {
  items = item ∷ [];
  checked_count = checked;
  failed_count = 1;
}

abbrev one_skipped : ResourceResult → ℕ → RunResult
one_skipped item checked = record new_timed_result {
  items = item ∷ [];
  checked_count = checked;
  skipped_count = 1;
}

abbrev one_updated : ResourceResult → RunResult
one_updated item = record new_timed_result {
  items = item ∷ [];
  checked_count = 1;
  updated_count = 1;
}

unfoldable pub dry_run_item : Text → Text → Text → Text → ResourceResult
dry_run_item id name old_image new_image = record {
  resource_id = id;
  resource_name = name;
  resource_type = container;
  status = skipped;
  update_available = false;
  update_applied = false;
  old_image = old_image;
  new_image = new_image;
  error = [];
}

module _ (lib : Libraries) (config : Config) where
  -- The loop over the pending records; an error of one does not stop it.
  unfoldable pub clear_matching : PendingStore → Text → List ImageUpdateRecord → Action (Unit {0})
  clear_matching store normalized [] = pure tt
  clear_matching store normalized (r ∷ rs) =
      let rest = clear_matching store normalized rs in
      if normalize_image_update_ref lib (new_image_ref r) == normalized
      then (ask (Request.clear_image_update_record r) (λ h. store.clear_image_update_record h r)
          >> rest)
      else rest

  unfoldable pub clear_pending_record : Text → Action (Unit {0})
  unfolding clear_matching
  clear_pending_record image_ref = elim config.pending_store [
    | none ↦ pure tt
    | some store ↦
        let normalized = normalize_image_update_ref lib image_ref in
        if is_empty normalized
        then pure tt
        else ask Request.pending_image_updates store.pending_image_updates >>= λ answer.
            elim answer [ err e ↦ pure tt | ok records ↦ clear_matching store normalized records ]
  ]

  unfoldable pub update_compose_service :
      ProjectUpdater → Text → Text → Action (Option (Option Text))
  update_compose_service updater project_name service_name = do
    project ←
        ask (Request.project_by_compose_name project_name)
          (λ h. updater.project_by_compose_name h project_name)
    elim project [
      | err e ↦ pure none
      | ok p ↦ do
        failure ←
            ask (Request.update_services p.id (service_name ∷ []))
              (λ h. updater.update_services h p.id (service_name ∷ []))
        pure (some failure)
    ]

  unfoldable pub update_compose_or_standalone :
      Summary → InspectResponse → Text → Action (Option Text)
  unfolding update_compose_service
  update_compose_or_standalone target inspect normalized_ref =
      let labels = labels_from_inspect inspect in
      let project_name = project_label labels in
      let service_name = service_label labels in
      let alone = update_standalone_container lib config target inspect normalized_ref in
      elim config.project_updater [
        | none ↦ alone
        | some updater ↦
            if is_empty project_name || is_empty service_name
            then alone
            else update_compose_service updater project_name service_name >>= λ answer.
                elim answer [ none ↦ alone | some failure ↦ pure failure ]
      ]

  abbrev pub config_image_of : InspectResponse → Text
  config_image_of inspect = elim inspect.config [ none ↦ [] | some c ↦ trim_space c.image ]

  -- The reference to pull: that of the container, or that of its image's tags.
  unfoldable pub resolve_pull_ref : DockerClient → Summary → InspectResponse → Action Text
  resolve_pull_ref docker target inspect =
      let config_image = config_image_of inspect in
      let image_ref = pullable_image_ref lib target.image config_image [] in
      if not (is_empty image_ref) || is_empty inspect.image
      then pure image_ref
      else ask (Request.image_inspect inspect.image) (λ h. docker.image_inspect h inspect.image)
        >>= λ answer. elim answer [
          | err e ↦ pure image_ref
          | ok image ↦ pure (pullable_image_ref lib target.image config_image image.repo_tags)
        ]

  -- What follows a pull of `ref` that brought a new image, or was forced.
  unfoldable pub apply_pulled :
      Summary → InspectResponse → (image_ref ref : Text) → Action RunResult
  unfolding update_compose_or_standalone clear_pending_record
  apply_pulled target inspect image_ref ref =
      let name = container_summary_name target in
      let labels = labels_from_inspect inspect in
      let updated_item = updated_container_result target.id name inspect.image ref in
      if is_self_update_candidate config target.id labels
      then (trigger_self_update config target.id name ref labels >>= λ failure. elim failure [
        | some e ↦ pure (one_failed (failed_container_result target.id name e) 0)
        | none ↦ clear_pending_record ref >> pure (one_updated updated_item)
      ])
      else update_compose_or_standalone target inspect ref >>= λ failure. elim failure [
        | some e ↦ pure (one_failed (failed_container_result target.id name e) 1)
        | none ↦
            notify config target.id name image_ref inspect.image ref
            >> clear_pending_record ref
            >> pure (one_updated updated_item)
      ]

  unfoldable pub pull_and_apply :
      DockerClient → Options → Summary → InspectResponse → (image_ref ref : Text) → Action RunResult
  unfolding apply_pulled
  pull_and_apply docker opts target inspect image_ref ref =
      let name = container_summary_name target in
      elim config.image_puller [
        | none ↦
            pure (one_failed (failed_container_result target.id name err_image_puller_required) 0)
        | some puller ↦ do
          pulled ← ask (Request.pull_image ref) (λ h. puller h ref)
          elim pulled [
            | some e ↦
                pure (
                  one_failed (failed_container_result target.id name (codes "pull failed: " ++ e))
                    0)
            | none ↦ do
              compared ←
                  compare_with_pulled
                    (record { docker_client = some docker; digest_resolver = none }) inspect.image
                    ref
              elim compared [
                | err e ↦ apply_pulled target inspect image_ref ref
                | ok changed ↦
                    if not changed && not opts.force
                    then clear_pending_record ref
                      >> pure (
                          one_skipped
                            (skipped_container_result target.id name
                              (codes "image digest unchanged after pull"))
                            1)
                    else apply_pulled target inspect image_ref ref
              ]
          ]
      ]

  -- The part of `UpdateContainer` that follows the inspection.
  unfoldable pub update_inspected :
      DockerClient → Options → Summary → InspectResponse → Action RunResult
  unfolding resolve_pull_ref pull_and_apply
  update_inspected docker opts target inspect =
      let name = container_summary_name target in
      let labels = labels_from_inspect inspect in
      if LabelPolicy.is_update_disabled config.label_policy labels
      then pure (
          one_skipped (skipped_container_result target.id name (codes "updates disabled by label"))
            1)
      else if LabelPolicy.is_swarm_task config.label_policy labels
          && not (is_self_update_candidate config target.id labels)
      then pure (
          one_skipped
            (skipped_container_result target.id name
              (codes "swarm service; update at the service level"))
            1)
      else resolve_pull_ref docker target inspect >>= λ image_ref.
          let ref = normalize_image_update_ref lib image_ref in
          if is_empty ref
          then pure (
              one_skipped
                (skipped_container_result target.id name
                  (codes "unable to resolve a pullable image reference for container"))
                0)
          else if opts.dry_run
          then pure (one_skipped (dry_run_item target.id name inspect.image ref) 1)
          else pull_and_apply docker opts target inspect image_ref ref

  abbrev id_filter : Text → ListOptions
  id_filter id = record { all = true; filters = (codes "id", trim_space id) ∷ [] }

  unfoldable pub update_target : DockerClient → Options → Summary → Action RunResult
  unfolding update_inspected with_status
  update_target docker opts target = do
    inspected ←
        ask (Request.container_inspect target.id) (λ h. docker.container_inspect h target.id)
    elim inspected [
      | err e ↦ pure (
          one_failed
            (failed_container_result target.id (container_summary_name target)
              (codes "inspect failed: " ++ e))
            0)
      | ok inspect ↦ with_status false target.id (
          with_status true (project_label (labels_from_inspect inspect))
            (update_inspected docker opts target inspect))
    ]

  unfoldable pub update_container : Text → Options → Action Outcome
  unfolding update_target
  update_container id opts = do
    client ← docker_client config
    elim client [
      | err e ↦ pure (fail (codes "docker connect: " ++ e))
      | ok docker ↦ do
        listed ←
            ask (Request.container_list (id_filter id))
              (λ h. docker.container_list h (id_filter id))
        elim listed [
          | err e ↦ pure (fail (codes "list containers: " ++ e))
          | ok [] ↦ pure (fail (err_container_not_found ++ (codes ": " ++ id)))
          | ok (target ∷ more) ↦ do out ← update_target docker opts target; pure (finish out)
        ]
    ]
