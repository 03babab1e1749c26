-- ===== src/Container/Rebuild.antt =====
-- container.go: the calls that stop, remove, create and start a container, and the rollback.
use updater.Common.{
  Bool, true, false, Option, none, some, [], ◌++◌, if◌then◌else◌, Result, ok, err, Text, codes,
  is_empty, trim_space, trim_prefix, Map,
}
use updater.Libraries.{Libraries}
use updater.Docker.{Summary, InspectResponse, HostConfig, CreateOptions}
use updater.LabelPolicy
use updater.Results.{labels_from_inspect}
use updater.Compat.{detect_api_version, container_create}
use updater.Compat.Engine.{prepare_recreate_host_config}
use updater.Hooks.{docker_client, record_event, err_self_update_container}
use updater.Ports.{Request, DockerClient, Config, Action, pure, ask, ◌>>=◌, ◌>>◌}
use updater.Container.Settings.{
  container_summary_name, refresh_recreated_image_labels, build_recreate_networking_config,
  config_or_blank, network_mode_of, adjust_config, adjust_host_config,
}

module _ (lib : Libraries) (config : Config) where
  unfoldable pub validate_standalone_container_update : Map Text → Option Text
  validate_standalone_container_update labels =
      if LabelPolicy.is_self_update_target config.label_policy labels
      then some err_self_update_container
      else none

  -- Docker takes an empty signal for its default.
  unfoldable pub stop_and_remove_standalone_container :
      DockerClient → Summary → InspectResponse → Action (Option Text)
  stop_and_remove_standalone_container docker cnt inspect =
      let name = container_summary_name cnt in
      let signal = LabelPolicy.stop_signal config.label_policy (labels_from_inspect inspect) in
      ask (Request.container_stop cnt.id signal) (λ h. docker.container_stop h cnt.id signal)
      >>= λ stopped. elim stopped [
        | some e ↦ pure (some (codes "stop: " ++ e))
        | none ↦
            record_event config (codes "container_stop") cnt.id name
            >> ask (Request.container_remove cnt.id false)
                (λ h. docker.container_remove h cnt.id false)
            >>= λ removed. elim removed [
              | some e ↦ pure (some (codes "remove: " ++ e))
              | none ↦ record_event config (codes "container_delete") cnt.id name >> pure none
            ]
      ]

  -- The ID and the labels of the image; empty where it cannot be inspected.
  unfoldable pub inspect_target_image : DockerClient → Text → Action (Text × Map Text)
  inspect_target_image docker ref = do
    answer ← ask (Request.image_inspect ref) (λ h. docker.image_inspect h ref)
    elim answer [
      | err e ↦ pure ([], [])
      | ok image ↦ elim image.config_labels [
        | none ↦ pure (image.id, [])
        | some labels ↦ pure (image.id, labels)
      ]
    ]

  unfoldable pub recreate_options :
      InspectResponse → Text → (Text × Map Text) → Option HostConfig → Text → CreateOptions
  recreate_options inspect new_ref (image_id, image_labels) host_config api_version =
      let cfg = config_or_blank inspect.config in
      let mode = network_mode_of host_config in
      record {
        config = adjust_config lib mode (record cfg {
          image = new_ref;
          labels = refresh_recreated_image_labels cfg.labels image_labels image_id;
        });
        host_config = adjust_host_config lib mode host_config;
        networking_config = build_recreate_networking_config lib mode inspect.networks api_version;
        name = trim_prefix inspect.name (codes "/");
      }

  unfoldable pub container_running : DockerClient → Text → Action (Result Bool)
  container_running docker id = do
    answer ← ask (Request.container_inspect id) (λ h. docker.container_inspect h id)
    elim answer [
      | err e ↦ pure (err e)
      | ok inspect ↦ elim inspect.running [
        | none ↦ pure (ok false)
        | some running ↦ pure (ok running)
      ]
    ]

  -- A start that fails is forgiven where the container turns out to run.
  unfoldable pub start_error : DockerClient → Text → Action (Option Text)
  start_error docker id = do
    failure ← ask (Request.container_start id) (λ h. docker.container_start h id)
    elim failure [
      | none ↦ pure none
      | some e ↦ do
        running ← container_running docker id
        elim running [
          | err f ↦
              pure (some (codes "start: " ++ (e ++ (codes "; inspect after start error: " ++ f))))
          | ok false ↦ pure (some (codes "start: " ++ e))
          | ok true ↦ pure none
        ]
    ]

  -- The part that follows the creation of the container `id`.
  unfoldable pub start_created : DockerClient → Text → Text → Action (Option Text)
  start_created docker id name = do
    record_event config (codes "container_create") id name
    failure ← start_error docker id
    elim failure [
      | some e ↦ pure (some e)
      | none ↦
          record_event config (codes "container_start") id name
          >> record_event config (codes "container_update") id name
    ]

  -- The ID of the created container, empty if there is none, and the error.
  unfoldable pub start_made :
      DockerClient → Summary → Text × Option Text → Action (Text × Option Text)
  start_made docker cnt (id, some e) = pure (id, some (codes "create: " ++ e))
  start_made docker cnt (id, none) = do
    started ← start_created docker id (container_summary_name cnt)
    pure (id, started)

  -- From the host config, or the error of its preparation, on.
  unfoldable pub make_prepared :
      DockerClient
      → Summary
      → InspectResponse
      → Text
      → (Text × Map Text)
      → Option HostConfig × Option Text
      → Action (Text × Option Text)
  unfolding start_made
  make_prepared docker cnt inspect new_ref image (host_config, some e) =
      pure ([], some (codes "prepare host config: " ++ e))
  make_prepared docker cnt inspect new_ref image (host_config, none) =
      detect_api_version (some docker) >>= λ api_version.
      container_create docker (recreate_options inspect new_ref image host_config api_version)
        api_version
      >>= start_made docker cnt

  unfoldable pub create_and_start_standalone_container :
      DockerClient → Summary → InspectResponse → Text → Action (Text × Option Text)
  unfolding make_prepared
  create_and_start_standalone_container docker cnt inspect new_ref =
      inspect_target_image docker new_ref >>= λ image.
      prepare_recreate_host_config docker inspect.host_config
      >>= make_prepared docker cnt inspect new_ref image

  unfoldable pub remove_failed_created_container : DockerClient → Text → Text → Action (Unit {0})
  remove_failed_created_container docker container_id name =
      let id = trim_space container_id in
      if is_empty id
      then pure tt
      else ask (Request.container_remove id true) (λ h. docker.container_remove h id true)
        >>= λ failure. elim failure [
          | some e ↦ pure tt
          | none ↦ record_event config (codes "container_cleanup") id name >> pure tt
        ]

  unfoldable pub rollback_standalone_container :
      DockerClient → Summary → InspectResponse → Action (Option Text)
  rollback_standalone_container docker cnt inspect =
      let old_image_id = trim_space inspect.image in
      let name = container_summary_name cnt in
      if is_empty old_image_id
      then pure (some (codes "old image ID unavailable"))
      else create_and_start_standalone_container docker cnt inspect old_image_id
        >>= λ (id, failure). elim failure [
          | some e ↦ remove_failed_created_container docker id name >> pure (some e)
          | none ↦ record_event config (codes "container_rollback") id name >> pure none
        ]

  abbrev pub rollback_error : Text → Option Text → Text
  rollback_error e (some f) = e ++ (codes "; rollback failed: " ++ f)
  rollback_error e none = e ++ codes "; rollback succeeded"

  -- What follows the creation of the container `id`.
  unfoldable pub finish_or_rollback :
      DockerClient → Summary → InspectResponse → Text × Option Text → Action (Option Text)
  finish_or_rollback docker cnt inspect (id, none) = pure none
  finish_or_rollback docker cnt inspect (id, some e) = do
    remove_failed_created_container docker id (container_summary_name cnt)
    rolled_back ← rollback_standalone_container docker cnt inspect
    pure (some (rollback_error e rolled_back))

  unfoldable pub create_start_or_rollback :
      DockerClient → Summary → InspectResponse → Text → Action (Option Text)
  unfolding finish_or_rollback
  create_start_or_rollback docker cnt inspect new_ref =
      create_and_start_standalone_container docker cnt inspect new_ref
      >>= finish_or_rollback docker cnt inspect

  unfoldable pub update_standalone_container :
      Summary → InspectResponse → Text → Action (Option Text)
  update_standalone_container cnt inspect new_ref =
      elim (validate_standalone_container_update (labels_from_inspect inspect)) [
        | some e ↦ pure (some e)
        | none ↦ do
          client ← docker_client config
          elim client [
            | err e ↦ pure (some (codes "docker connect: " ++ e))
            | ok docker ↦ do
              failure ← stop_and_remove_standalone_container docker cnt inspect
              elim failure [
                | some e ↦ pure (some e)
                | none ↦ create_start_or_rollback docker cnt inspect new_ref
              ]
          ]
      ]
