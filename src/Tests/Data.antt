-- ===== src/Tests/Data.antt =====
-- Containers, parsers and a Docker client for the tests.
use updater.Common.{
  true, false, Option, none, some, [], ◌∷◌, ◌++◌, if◌then◌else◌, ok, err, Text, codes, ◌==◌,
  is_empty, has_prefix, before_sep,
}
use updater.Libraries.{Libraries, Named, Url}
use updater.Docker.{Summary, InspectResponse, ImageInspect, ContainerConfig}
use updater.Types.{ResourceResult, ResourceStatus, ImageUpdateRecord, Event, UpdateType, container}
use updater.LabelPolicy.{default_label_policy}
use updater.Ports.{History, DockerClient, PendingStore, Config}

abbrev named : Text → Named
named s = record { domain = codes "docker.io"; path = before_sep s b':'; tag = none }

abbrev url : Url
url = record { scheme = []; host = []; hostname = []; escaped_path = []; raw_query = [] }

-- Parsers that know what the tests need.
abbrev pub lib : Libraries
lib = record {
  quote = λ s. codes "\"" ++ (s ++ codes "\"");
  parse_normalized_named = λ s. ok (named s);
  parse_digest = λ s. if is_empty s then err (codes "empty") else ok s;
  parse_url = λ s. ok url;
  is_ip = λ s. false;
  is_container = λ s. has_prefix s (codes "container:");
  is_host = λ s. s == codes "host";
}

abbrev pub summary : Text → Text → Summary
summary id image = record {
  id = id;
  names = (codes "/" ++ id) ∷ [];
  image = image;
  image_id = codes "sha256:0";
  labels = [];
}

abbrev pub image_config : ContainerConfig
image_config = record {
  image = codes "web:1";
  labels = [];
  hostname = [];
  domainname = [];
  exposed_ports = [];
  other = [];
}

abbrev pub inspection : InspectResponse
inspection = record {
  name = codes "/web";
  image = codes "sha256:0";
  config = some image_config;
  host_config = none;
  networks = none;
  running = some true;
}

abbrev pub image_inspection : ImageInspect
image_inspection = record {
  id = codes "sha256:1";
  repo_tags = [];
  repo_digests = [];
  config_labels = none;
}

-- A Docker that does whatever it is asked.
abbrev pub docker : DockerClient
docker = record {
  container_list = λ h options. ok (summary (codes "web") (codes "web:1") ∷ []);
  container_inspect = λ h id. ok inspection;
  container_stop = λ h id signal. none;
  container_remove = λ h id force. none;
  container_create = λ h options. ok (codes "new");
  container_start = λ h id. none;
  network_connect = λ h network id settings. none;
  image_inspect = λ h ref. ok image_inspection;
  image_list = λ h. ok [];
  server_version = λ h. err (codes "unsupported");
  info = λ h. err (codes "unsupported");
  client_version = codes "1.44";
  daemon_host = [];
}

abbrev pub store : PendingStore
store = record { pending_image_updates = λ h. ok []; clear_image_update_record = λ h r. none }

-- A config whose event recorder refuses one phase.
abbrev pub refuse : Text → History → Event → Option Text
refuse phase h event = if event.phase == phase then some (codes "refused") else none

abbrev pub config : Config
config = record {
  docker_client_provider = some (λ h. ok (some docker));
  image_puller = some (λ h ref. none);
  pending_store = some store;
  registry_digest_resolver = none;
  project_updater = none;
  label_policy = default_label_policy;
  run_recorder = none;
  settings = none;
  self_updater = none;
  notifier = none;
  event_recorder = some (refuse (codes "container_update"));
  used_image_collector = none;
  self_container_id = [];
}

abbrev pub web_record : ImageUpdateRecord
web_record = record {
  id = codes "1";
  repository = codes " web ";
  tag = codes "1";
  has_update = true;
  update_type = UpdateType.tag;
  current_version = codes "1";
  latest_version = some (codes "2");
  current_digest = none;
  latest_digest = none;
  last_error = none;
}

abbrev pub result_of : Text → ResourceStatus → ResourceResult
result_of image s = record {
  resource_id = codes "web";
  resource_name = codes "web";
  resource_type = container;
  status = s;
  update_available = false;
  update_applied = false;
  old_image = [];
  new_image = image;
  error = [];
}
