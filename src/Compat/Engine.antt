-- ===== src/Compat/Engine.antt =====
-- internal/compat/engine.go: what the running engine would refuse of a host config.
use updater.Common.{
  Bool, true, false, not, ◌||◌, Option, none, some, List, [], ◌∷◌, ◌++◌, if◌then◌else◌, ok, err,
  Text, codes, ◌==◌, is_empty, trim_space, to_lower, equal_fold, trim_prefix, contains,
}
use updater.Docker.{HostConfig, ServerVersion, SystemInfo}
use updater.Ports.{Request, DockerClient, Action, pure, ask, ◌>>=◌}

pub record EngineInfo : Type 0 where
  pub name : Text
  pub cgroup_version : Text

unfoldable pub normalize_engine_name : Text → Text
normalize_engine_name value =
    let normalized = to_lower (trim_space value) in
    if contains normalized (codes "podman")
    then codes "podman"
    else if contains normalized (codes "docker")
    then codes "docker"
    else []

unfoldable pub component_names : List (Text × List Text) → List Text
component_names [] = []
component_names ((name, details) ∷ components) = name ∷ (details ++ component_names components)

unfoldable pub first_engine_name : List Text → Text
unfolding normalize_engine_name
first_engine_name [] = []
first_engine_name (candidate ∷ candidates) =
    let name = normalize_engine_name candidate in
    if is_empty name then first_engine_name candidates else name

unfoldable pub detect_engine_name : ServerVersion → SystemInfo → Text
unfolding component_names first_engine_name
detect_engine_name version info = first_engine_name (
    version.platform_name
    ∷ (component_names version.components ++ info.server_version ∷ info.operating_system ∷ []))

unfoldable pub detect_engine_info : ServerVersion → SystemInfo → EngineInfo
unfolding detect_engine_name
detect_engine_info version info = record {
  name = detect_engine_name version info;
  cgroup_version = trim_space info.cgroup_version;
}

-- The host config afterwards, and whether it has changed.
unfoldable pub sanitize_recreate_host_config : HostConfig → EngineInfo → HostConfig × Bool
sanitize_recreate_host_config host engine =
    if not (equal_fold engine.name (codes "podman"))
      || not (trim_prefix (to_lower engine.cgroup_version) (codes "v") == codes "2")
    then (host, false)
    else elim host.memory_swappiness [
      | none ↦ (host, false)
      | some n ↦ (record host { memory_swappiness = none }, true)
    ]

unfoldable pub prepare_recreate_host_config :
    DockerClient → Option HostConfig → Action (Option HostConfig × Option Text)
unfolding sanitize_recreate_host_config detect_engine_info
prepare_recreate_host_config docker none = pure (none, none)
prepare_recreate_host_config docker (some host) = do
  version ← ask Request.server_version docker.server_version
  elim version [
    | err e ↦ pure (some host, some e)
    | ok v ↦ do
      info ← ask Request.info docker.info
      elim info [
        | err e ↦ pure (some host, some e)
        | ok i ↦ pure (some (sanitize_recreate_host_config host (detect_engine_info v i)).0, none)
      ]
  ]
