-- ===== src/Ports/Requests.antt =====
-- The requests, and the interfaces that answer them.
use updater.Common.{ℕ, Bool, Option, List, Result, Text}
use updater.Docker.{
  Summary, InspectResponse, ImageInspect, ImageSummary, EndpointSettings, ListOptions,
  CreateOptions, ServerVersion, SystemInfo,
}
use updater.Types.{
  ImageUpdateRecord, ResourceResult, ComposeProject, SelfUpdateTarget, Notification, Event,
}
use updater.LabelPolicy.{LabelPolicy}

-- `http.Request`: its `Accept` and `Authorization` headers are `none` where they are not set.
pub record HttpRequest : Type 0 where
  pub method : Text
  pub url : Text
  pub accept : Option Text
  pub authorization : Option Text

-- `http.Response`, with `Header.Get`.
pub record HttpResponse : Type 0 where
  pub status_code : ℕ
  pub header : Text → Text
  pub body : Text

pub data Request : Type 0 where
  docker_client : Request
  container_list : ListOptions → Request
  container_inspect : (id : Text) → Request
  container_stop : (id signal : Text) → Request
  container_remove : (id : Text) (force : Bool) → Request
  container_create : CreateOptions → Request
  container_start : (id : Text) → Request
  network_connect : (network container : Text) → Option EndpointSettings → Request
  image_inspect : (ref : Text) → Request
  image_list : Request
  server_version : Request
  info : Request
  pull_image : (ref : Text) → Request
  pending_image_updates : Request
  clear_image_update_record : ImageUpdateRecord → Request
  image_digest : (ref : Text) → Request
  record_update_run : ResourceResult → Request
  excluded_containers : Request
  project_by_compose_name : (name : Text) → Request
  update_services : (project : Text) (services : List Text) → Request
  trigger_self_update : SelfUpdateTarget → Request
  notify : Notification → Request
  record_event : Event → Request
  used_images : Request
  -- What the default ports ask of a registry and of the host.
  http_do : HttpRequest → Request
  docker_command : (dir : Text) (args : List Text) → Request
  image_pull : (ref registry_auth : Text) → Request
  -- A step of the program itself: the status lists of status.go are updated.
  update_status : (project : Bool) (id : Text) (add : Bool) → Request

-- The requests made so far, the latest first.
abbrev pub History : Type 0
History = List Request

-- `client.Client`.
pub record DockerClient : Type 0 where
  pub container_list : History → ListOptions → Result (List Summary)
  pub container_inspect : History → Text → Result InspectResponse
  pub container_stop : History → Text → Text → Option Text
  pub container_remove : History → Text → Bool → Option Text
  pub container_create : History → CreateOptions → Result Text
  pub container_start : History → Text → Option Text
  pub network_connect : History → Text → Text → Option EndpointSettings → Option Text
  pub image_inspect : History → Text → Result ImageInspect
  pub image_list : History → Result (List ImageSummary)
  pub server_version : History → Result ServerVersion
  pub info : History → Result SystemInfo
  pub client_version : Text
  pub daemon_host : Text

-- `http.Client.Do`.
abbrev pub HttpClient : Type 0
HttpClient = History → HttpRequest → Result HttpResponse

pub record PendingStore : Type 0 where
  pub pending_image_updates : History → Result (List ImageUpdateRecord)
  pub clear_image_update_record : History → ImageUpdateRecord → Option Text

pub record ProjectUpdater : Type 0 where
  pub project_by_compose_name : History → Text → Result ComposeProject
  pub update_services : History → Text → List Text → Option Text

-- `Config`: a port that is nil is `none`. A `DockerClient` answer of `ok none` is a nil client.
pub record Config : Type 0 where
  pub docker_client_provider : Option (History → Result (Option DockerClient))
  pub image_puller : Option (History → Text → Option Text)
  pub pending_store : Option PendingStore
  pub registry_digest_resolver : Option (History → Text → Result Text)
  pub project_updater : Option ProjectUpdater
  pub label_policy : LabelPolicy
  pub run_recorder : Option (History → ResourceResult → Option Text)
  pub settings : Option (History → Result (List Text))
  pub self_updater : Option (History → SelfUpdateTarget → Option Text)
  pub notifier : Option (History → Notification → Option Text)
  pub event_recorder : Option (History → Event → Option Text)
  pub used_image_collector : Option (History → Result (List Text))
  pub self_container_id : Text
