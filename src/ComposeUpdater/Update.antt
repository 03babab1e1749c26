-- ===== src/ComposeUpdater/Update.antt =====
-- The operations of the compose updater.
use updater.Common.{
  true, Option, none, some, List, [], ◌∷◌, ◌++◌, if◌then◌else◌, Result, ok, err, Text, codes, ◌==◌,
  is_empty, trim_space,
}
use updater.Docker.{Summary, ListOptions}
use updater.Types.{ComposeProject}
use updater.Compose.{project_label, working_dir_label, config_files_label, project_label_key}
use updater.Ports.{Request, History, DockerClient, Action, pure, ask, ◌>>=◌}
use updater.ComposeUpdater.Output.{truncate_compose_output}
use updater.ComposeUpdater.Services.{normalize_compose_services}

-- `dockerComposeProjectMetadata`.
pub record ProjectMetadata : Type 0 where
  pub project_name : Text
  pub working_dir : Text
  pub config_files : List Text

abbrev pub project_filters : Text → ListOptions
project_filters name = record {
  all = true;
  filters = (codes "label", project_label_key ++ (codes "=" ++ name)) ∷ [];
}

abbrev pub metadata_of : Text → Summary → ProjectMetadata
metadata_of name c = record {
  project_name = name;
  working_dir = working_dir_label c.labels;
  config_files = config_files_label c.labels;
}

abbrev pub project_not_found : Text → Text
project_not_found name = codes "compose project not found: " ++ name

-- The loop over the listed containers.
unfoldable pub find_project : Text → List Summary → Result ProjectMetadata
find_project name [] = err (project_not_found name)
find_project name (c ∷ cs) =
    if project_label c.labels == name then ok (metadata_of name c) else find_project name cs

unfoldable pub listed_project : Text → Result (List Summary) → Result ProjectMetadata
unfolding find_project
listed_project name (err e) = err (codes "list compose containers: " ++ e)
listed_project name (ok []) = err (project_not_found name)
listed_project name (ok (c ∷ cs)) = find_project name (c ∷ cs)

abbrev pub config_flags : List Text → List Text
config_flags [] = []
config_flags (file ∷ files) = codes "-f" ∷ file ∷ config_flags files

-- The arguments of `docker`.
abbrev pub compose_args : ProjectMetadata → List Text → List Text
compose_args metadata services =
    (codes "compose" ∷ codes "-p" ∷ metadata.project_name ∷ [])
    ++ (config_flags metadata.config_files
        ++ ((codes "up" ∷ codes "-d" ∷ codes "--no-deps" ∷ codes "--force-recreate" ∷ [])
            ++ services))

module _ (provider : History → Result DockerClient) where
  unfoldable pub list_project : Text → Result DockerClient → Action (Result ProjectMetadata)
  unfolding listed_project
  list_project name (err e) = pure (err (codes "docker connect: " ++ e))
  list_project name (ok docker) =
      ask (Request.container_list (project_filters name))
        (λ h. docker.container_list h (project_filters name))
      >>= λ listed. pure (listed_project name listed)

  unfoldable pub resolve_project_metadata : (compose_name : Text) → Action (Result ProjectMetadata)
  unfolding list_project
  resolve_project_metadata compose_name =
      let name = trim_space compose_name in
      if is_empty name
      then pure (err (codes "compose project name is required"))
      else ask Request.docker_client provider >>= list_project name

  unfoldable pub compose_project : Result ProjectMetadata → Result ComposeProject
  compose_project (err e) = err e
  compose_project (ok metadata) =
      ok (record { id = metadata.project_name; name = metadata.project_name })

  unfoldable pub project_by_compose_name : (compose_name : Text) → Action (Result ComposeProject)
  unfolding resolve_project_metadata compose_project
  project_by_compose_name compose_name =
      resolve_project_metadata compose_name >>= λ found. pure (compose_project found)

  -- `exec.CommandContext` and `CombinedOutput`: the output and the error, if any, of the command
  -- in a directory, the current one where it is empty.
  module _ (run : History → (dir : Text) (args : List Text) → Text × Option Text) where
    unfoldable pub command_error : Text × Option Text → Option Text
    unfolding truncate_compose_output
    command_error (output, none) = none
    command_error (output, some e) = some (
        codes "docker compose update failed: "
        ++ (e ++ (codes ": " ++ truncate_compose_output (trim_space output))))

    unfoldable pub run_compose : List Text → ProjectMetadata → Action (Option Text)
    unfolding command_error
    run_compose [] metadata = pure (some (codes "compose update requires at least one service"))
    run_compose (service ∷ services) metadata =
        let args = compose_args metadata (service ∷ services) in
        ask (Request.docker_command metadata.working_dir args)
          (λ h. run h metadata.working_dir args)
        >>= λ done. pure (command_error done)

    unfoldable pub update_resolved : List Text → Result ProjectMetadata → Action (Option Text)
    unfolding run_compose normalize_compose_services
    update_resolved services (err e) = pure (some e)
    update_resolved services (ok metadata) =
        run_compose (normalize_compose_services services) metadata

    unfoldable pub update_services :
        (project_id : Text) (services : List Text) → Action (Option Text)
    unfolding resolve_project_metadata update_resolved
    update_services project_id services =
        resolve_project_metadata project_id >>= update_resolved services

-- `dockerComposeProjectUpdater`, and its constructor: a provider that is nil is a new one, the
-- first argument.
pub record ComposeProjectUpdater : Type 0 where
  pub project_by_compose_name : Text → Action (Result ComposeProject)
  pub update_services : Text → List Text → Action (Option Text)

module _ (run : History → (dir : Text) (args : List Text) → Text × Option Text) where
  unfoldable pub compose_updater_with : (History → Result DockerClient) → ComposeProjectUpdater
  unfolding project_by_compose_name update_services
  compose_updater_with provider = record {
    project_by_compose_name = project_by_compose_name provider;
    update_services = update_services provider run;
  }

  unfoldable pub new_docker_compose_project_updater :
      (new_provider : History → Result DockerClient)
      → Option (History → Result DockerClient)
      → ComposeProjectUpdater
  unfolding compose_updater_with
  new_docker_compose_project_updater new_provider none = compose_updater_with new_provider
  new_docker_compose_project_updater new_provider (some provider) = compose_updater_with provider
