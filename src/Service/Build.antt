-- ===== src/Service/Build.antt =====
-- The construction of a service.
use updater.Common.{
  ◌⊎◌, inl, inr, Bool, true, false, Option, none, some, List, [], ◌++◌, if◌then◌else◌, Result, Text,
  codes,
}
use updater.Common.Int.{ℤ, pos, int_lt}
use updater.Hooks.{
  err_docker_client_provider_required, err_image_puller_required, err_pending_store_required,
}
use updater.LabelPolicy.{merge_label_policy_defaults}
use updater.Ports.{Config, DockerClient, History, PendingStore, ProjectUpdater}
use updater.Provider.Calls.{Call, closed, close_call}

abbrev pub ClientProvider : Type 0
ClientProvider = History → Result (Option DockerClient)

abbrev pub Puller : Type 0
Puller = History → Text → Option Text

abbrev pub Resolver : Type 0
Resolver = History → Text → Result Text

-- `NewDockerClientProvider`, `NewImagePuller`, `NewMemoryPendingStore`,
-- `NewRegistryDigestResolver` and `NewDockerComposeProjectUpdater`; none of them returns nil.
pub record DefaultPorts : Type 0 where
  pub docker_client_provider : ClientProvider
  pub image_puller : ClientProvider → Puller
  pub pending_store : PendingStore
  pub registry_digest_resolver : Resolver
  pub project_updater : ClientProvider → ProjectUpdater

-- The configuration with its timeout in nanoseconds.
pub record Settings : Type 0 where
  pub config : Config
  pub operation_timeout : ℤ

pub record ConfigError : Type 0 where
  pub field : Text
  pub reason : Text

unfoldable pub error : ConfigError → Text
error e = codes "updater config: " ++ (e.field ++ (codes ": " ++ e.reason))

unfoldable pub unwrap : ConfigError → Text
unwrap e = e.reason

-- The default's own provider is the only one that `Close` may shut down.
pub record Service : Type 0 where
  pub settings : Settings
  pub owns_docker_client : Bool
  pub updating_containers : List Text
  pub updating_projects : List Text

unfoldable pub default_of : {A : Type 0} → Option A → A → Option A
default_of none d = some d
default_of (some a) d = some a

-- The provider from which other defaults are built.
unfoldable pub provider_of : DefaultPorts → Config → ClientProvider
provider_of defaults config = elim config.docker_client_provider [
  | none ↦ defaults.docker_client_provider
  | some provider ↦ provider
]

-- The configuration, and whether its provider was created here.
unfoldable pub apply_config_defaults : DefaultPorts → Config → Config × Bool
unfolding default_of provider_of
apply_config_defaults defaults config =
    let provider = provider_of defaults config in
    (
      record config {
        docker_client_provider = some provider;
        image_puller = default_of config.image_puller (defaults.image_puller provider);
        pending_store = default_of config.pending_store defaults.pending_store;
        registry_digest_resolver =
            default_of config.registry_digest_resolver defaults.registry_digest_resolver;
        project_updater = default_of config.project_updater (defaults.project_updater provider);
      },
      elim config.docker_client_provider [ none ↦ true | some provider ↦ false ],
    )

abbrev pub field_error : Text → Text → ConfigError
field_error field reason = record { field = field; reason = reason }

unfoldable pub is_nil : {A : Type 0} → Option A → Bool
is_nil none = true
is_nil (some a) = false

unfoldable pub validate : Settings → Option ConfigError
unfolding is_nil
validate s =
    if is_nil s.config.docker_client_provider
    then some (field_error (codes "DockerClientProvider") err_docker_client_provider_required)
    else if is_nil s.config.image_puller
    then some (field_error (codes "ImagePuller") err_image_puller_required)
    else if is_nil s.config.pending_store
    then some (field_error (codes "PendingStore") err_pending_store_required)
    else if int_lt s.operation_timeout (pos 0)
    then some (field_error (codes "OperationTimeout") (codes "must not be negative"))
    else none

unfoldable pub new_service : Settings → Service
unfolding merge_label_policy_defaults
new_service s = record {
  settings = record s {
    config = record s.config { label_policy = merge_label_policy_defaults s.config.label_policy };
  };
  owns_docker_client = false;
  updating_containers = [];
  updating_projects = [];
}

-- `New`: an error or a service.
unfoldable pub new : DefaultPorts → Settings → ConfigError ⊎ Service
unfolding apply_config_defaults validate new_service
new defaults s =
    let (config, owned) = apply_config_defaults defaults s.config in
    let filled = record s { config = config } in
    elim (validate filled) [
      | some e ↦ inl e
      | none ↦ inr (record (new_service filled) { owns_docker_client = owned })
    ]

-- `Close`: what it begins at the provider, or its end.
unfoldable pub close : Option Service → Call
unfolding close_call
close none = closed none
close (some service) = if service.owns_docker_client then close_call false else closed none

-- The timeout that `opCtx` sets, if any.
unfoldable pub op_ctx : Option Service → Option ℤ
op_ctx none = none
op_ctx (some service) =
    if int_lt (pos 0) service.settings.operation_timeout
    then some service.settings.operation_timeout
    else none
