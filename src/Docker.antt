-- ===== src/Docker.antt =====
-- The parts of Docker's API that the program reads and writes: its records, cut down to the fields
-- in use. Nil pointers are `none`; nil maps and slices are empty. `other` stands for the fields
-- that the program only copies.
use updater.Common.{ℕ, Bool, Option, List, Text, Map}

-- `container.Summary`.
pub record Summary : Type 0 where
  pub id : Text
  pub names : List Text
  pub image : Text
  pub image_id : Text
  pub labels : Map Text

-- `container.Config`.
pub record ContainerConfig : Type 0 where
  pub image : Text
  pub labels : Map Text
  pub hostname : Text
  pub domainname : Text
  pub exposed_ports : List Text
  pub other : Text

-- `container.HostConfig`.
pub record HostConfig : Type 0 where
  pub links : List Text
  pub network_mode : Text
  pub port_bindings : List Text
  pub publish_all_ports : Bool
  pub memory_swappiness : Option ℕ
  pub other : Text

-- `network.EndpointSettings`.
pub record EndpointSettings : Type 0 where
  pub ipam_config : Option Text
  pub links : List Text
  pub aliases : List Text
  pub driver_opts : Map Text
  pub gw_priority : ℕ
  pub mac_address : Option Text
  pub other : Text

abbrev pub Endpoints : Type 0
Endpoints = Map (Option EndpointSettings)

-- `container.InspectResponse`; `networks` is `none` where its `NetworkSettings` is nil, and
-- `running` where its `State` is.
pub record InspectResponse : Type 0 where
  pub name : Text
  pub image : Text
  pub config : Option ContainerConfig
  pub host_config : Option HostConfig
  pub networks : Option Endpoints
  pub running : Option Bool

-- `image.InspectResponse`: `config_labels` is `none` where its `Config` is nil.
pub record ImageInspect : Type 0 where
  pub id : Text
  pub repo_tags : List Text
  pub repo_digests : List Text
  pub config_labels : Option (Map Text)

-- `image.Summary`.
pub record ImageSummary : Type 0 where
  pub id : Text
  pub repo_tags : List Text

-- `client.ContainerListOptions`.
pub record ListOptions : Type 0 where
  pub all : Bool
  pub filters : List (Text × Text)

-- `client.ContainerCreateOptions`; `networking_config` holds its `EndpointsConfig`.
pub record CreateOptions : Type 0 where
  pub config : ContainerConfig
  pub host_config : Option HostConfig
  pub networking_config : Option Endpoints
  pub name : Text

-- `client.ServerVersionResult` and the fields of `system.Info`.
pub record ServerVersion : Type 0 where
  pub api_version : Text
  pub platform_name : Text
  pub components : List (Text × List Text)

pub record SystemInfo : Type 0 where
  pub server_version : Text
  pub operating_system : Text
  pub cgroup_version : Text
