-- ===== src/Container/Settings.antt =====
-- container.go: names, labels and settings of the container that is created again. Docker's copies of
-- unchanged fields are equal to them.
use updater.Common.{
  Bool, false, not, ◌||◌, Option, none, some, List, [], ◌∷◌, leb, if◌then◌else◌, length, take, Text,
  codes, is_empty, to_lower, equal_fold, has_prefix, trim_prefix, Map, insert,
}
use updater.Libraries.{Libraries}
use updater.Docker.{Summary, ContainerConfig, HostConfig, EndpointSettings, Endpoints}
use updater.Compat.{sanitize_endpoint_settings}

abbrev pub first_or_empty : List Text → Text
first_or_empty [] = []
first_or_empty (x ∷ xs) = x

unfoldable pub container_summary_name : Summary → Text
container_summary_name cnt =
    let name = trim_prefix (first_or_empty cnt.names) (codes "/") in
    if not (is_empty name) then name else if leb 12 (length cnt.id) then take 12 cnt.id else cnt.id

abbrev pub oci_prefix : Text
oci_prefix = codes "org.opencontainers.image."

abbrev pub compose_image_label : Text
compose_image_label = codes "com.docker.compose.image"

-- Whether some key of the map equals `key` under case folding.
unfoldable pub has_key_fold : Map Text → Text → Bool
has_key_fold [] key = false
has_key_fold ((existing, value) ∷ labels) key = equal_fold existing key || has_key_fold labels key

-- The loop over the labels of the image.
unfoldable pub add_image_labels : Map Text → Map Text → Map Text
unfolding has_key_fold
add_image_labels refreshed [] = refreshed
add_image_labels refreshed ((key, value) ∷ labels) =
    add_image_labels
      (if not (has_prefix (to_lower key) oci_prefix)
        then refreshed
        else if has_key_fold refreshed key
        then refreshed
        else insert refreshed key value)
      labels

-- The loop that sets the label of Docker Compose for the image.
unfoldable pub set_compose_image : Text → Map Text → Map Text
set_compose_image image_id [] = []
set_compose_image image_id ((key, value) ∷ labels) =
    (key, if equal_fold key compose_image_label then image_id else value)
    ∷ set_compose_image image_id labels

unfoldable pub refresh_recreated_image_labels : Map Text → Map Text → Text → Map Text
unfolding add_image_labels set_compose_image
refresh_recreated_image_labels container_labels image_labels image_id =
    let refreshed = add_image_labels container_labels image_labels in
    if is_empty image_id then refreshed else set_compose_image image_id refreshed

-- The settings that are kept of an endpoint; a nil endpoint becomes an empty one.
unfoldable pub kept_endpoint : Option EndpointSettings → Option EndpointSettings
kept_endpoint none = some (record {
  ipam_config = none;
  links = [];
  aliases = [];
  driver_opts = [];
  gw_priority = 0;
  mac_address = none;
  other = [];
})
kept_endpoint (some endpoint) = some (record endpoint { other = [] })

unfoldable pub kept_endpoints : Endpoints → Endpoints
unfolding kept_endpoint
kept_endpoints [] = []
kept_endpoints ((name, endpoint) ∷ endpoints) =
    (name, kept_endpoint endpoint) ∷ kept_endpoints endpoints

abbrev pub some_unless_empty : Endpoints → Option Endpoints
some_unless_empty [] = none
some_unless_empty (e ∷ es) = some (e ∷ es)

unfoldable pub build_recreate_networking_config :
    Libraries → Text → Option Endpoints → Text → Option Endpoints
unfolding kept_endpoints
build_recreate_networking_config lib network_mode none api_version = none
build_recreate_networking_config lib network_mode (some networks) api_version =
    if lib.is_container network_mode
    then none
    else some_unless_empty (sanitize_endpoint_settings (kept_endpoints networks) api_version)

abbrev pub blank_config : ContainerConfig
blank_config = record {
  image = [];
  labels = [];
  hostname = [];
  domainname = [];
  exposed_ports = [];
  other = [];
}

abbrev pub config_or_blank : Option ContainerConfig → ContainerConfig
config_or_blank none = blank_config
config_or_blank (some c) = c

abbrev pub network_mode_of : Option HostConfig → Text
network_mode_of none = []
network_mode_of (some host) = host.network_mode

-- What a network mode forbids in the config.
unfoldable pub adjust_config : Libraries → Text → ContainerConfig → ContainerConfig
adjust_config lib mode cfg =
    let hostless = record cfg { hostname = []; domainname = [] } in
    if lib.is_container mode
    then record hostless { exposed_ports = [] }
    else if lib.is_host mode
    then hostless
    else cfg

unfoldable pub adjust_host_config : Libraries → Text → Option HostConfig → Option HostConfig
adjust_host_config lib mode none = none
adjust_host_config lib mode (some host) =
    if lib.is_container mode
    then some (record host { port_bindings = []; publish_all_ports = false })
    else some host
