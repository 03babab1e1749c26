-- ===== src/Service/Complete.antt =====
-- Which configurations make a service, and what service they make.
use updater.Common.{
  ◌≡◌, refl, ◌⊎◌, inl, inr, Bool, true, false, Option, none, some, [], if◌then◌else◌, Bool-cases,
  Option-cases, codes,
}
use updater.Common.Int.{pos, int_lt}
use updater.LabelPolicy.{merge_label_policy_defaults}
use updater.Provider.Calls.{closed, swap, close_call}
use updater.Service.Build.{
  DefaultPorts, Settings, Service, default_of, provider_of, apply_config_defaults, field_error,
  is_nil, validate, new_service, new, close,
}

-- A port as given, or else the default.
abbrev pub given_or : {A : Type 0} → Option A → A → Option A
given_or none d = some d
given_or (some a) d = some a

abbrev pub is_none : {A : Type 0} → Option A → Bool
is_none none = true
is_none (some a) = false

default_of-given : {A : Type 0} (o : Option A) (d : A) → default_of o d ≡ given_or o d
unfolding default_of
default_of-given none d = refl
default_of-given (some a) d = refl

is_nil-default_of : {A : Type 0} (o : Option A) (d : A) → is_nil (default_of o d) ≡ false
unfolding is_nil default_of
is_nil-default_of none d = refl
is_nil-default_of (some a) d = refl

module _ (defaults : DefaultPorts) where
  -- The service has each port that was given, and the defaults of those that were not; what it
  -- has no default for is as given.
  pub record IsComplete (s : Settings) (service : Service) : Type 0 where
    pub provider :
        service.settings.config.docker_client_provider ≡ some (provider_of defaults s.config)
    pub puller :
        service.settings.config.image_puller
        ≡ given_or s.config.image_puller (defaults.image_puller (provider_of defaults s.config))
    pub store :
        service.settings.config.pending_store
        ≡ given_or s.config.pending_store defaults.pending_store
    pub resolver :
        service.settings.config.registry_digest_resolver
        ≡ given_or s.config.registry_digest_resolver defaults.registry_digest_resolver
    pub updater :
        service.settings.config.project_updater
        ≡ given_or s.config.project_updater
            (defaults.project_updater (provider_of defaults s.config))
    pub policy :
        service.settings.config.label_policy ≡ merge_label_policy_defaults s.config.label_policy
    pub recorder : service.settings.config.run_recorder ≡ s.config.run_recorder
    pub excluded : service.settings.config.settings ≡ s.config.settings
    pub self_updater : service.settings.config.self_updater ≡ s.config.self_updater
    pub notifier : service.settings.config.notifier ≡ s.config.notifier
    pub event_recorder : service.settings.config.event_recorder ≡ s.config.event_recorder
    pub collector : service.settings.config.used_image_collector ≡ s.config.used_image_collector
    pub self_id : service.settings.config.self_container_id ≡ s.config.self_container_id
    -- Only a provider created here is closed.
    pub closes :
        close (some service)
        ≡ (if is_none s.config.docker_client_provider then swap else closed none)
    pub idle : (service.updating_containers ≡ []) × (service.updating_projects ≡ [])

  -- What `New` builds where the checks pass.
  built : Settings → Service
  unfolding apply_config_defaults
  built s =
      let (config, owned) = apply_config_defaults defaults s.config in
      record (new_service (record s { config = config })) { owns_docker_client = owned }

  close-built :
      (s : Settings)
      → close (some (built s))
        ≡ (if is_none s.config.docker_client_provider then swap else closed none)
  unfolding built close close_call
  close-built s = elim (Option-cases s.config.docker_client_provider) [
    | inl e ↦ simp (e, apply_config_defaults) refl
    | inr (_, e) ↦ simp (e, apply_config_defaults) refl
  ]

  built-IsComplete : (s : Settings) → IsComplete s (built s)
  unfolding built apply_config_defaults new_service
  built-IsComplete s = record {
    provider = refl;
    puller = default_of-given _ _;
    store = default_of-given _ _;
    resolver = default_of-given _ _;
    updater = default_of-given _ _;
    policy = refl;
    recorder = refl;
    excluded = refl;
    self_updater = refl;
    notifier = refl;
    event_recorder = refl;
    collector = refl;
    self_id = refl;
    closes = close-built s;
    idle = (refl, refl);
  }

  validate-filled :
      (s : Settings)
      → validate (record s { config = (apply_config_defaults defaults s.config).0 }) ≡ (
          if int_lt s.operation_timeout (pos 0)
          then some (field_error (codes "OperationTimeout") (codes "must not be negative"))
          else none)
  unfolding validate apply_config_defaults
  validate-filled s =
      let puller =
        is_nil-default_of s.config.image_puller
          (defaults.image_puller (provider_of defaults s.config)) in
      let store = is_nil-default_of s.config.pending_store defaults.pending_store in
      rw (validate, puller, store) refl

  -- A configuration is refused exactly where its timeout is negative, with an error that names
  -- the field. Any other makes a service that updates nothing yet and has every port that was
  -- given, the defaults of the ports that were not, the default puller and compose updater on the
  -- service's own provider, and the rest as given; closing it closes the provider exactly where
  -- none was given.
  pub new-cases :
      (s : Settings)
      → ((int_lt s.operation_timeout (pos 0) ≡ true)
          × (new defaults s
              ≡ inl (field_error (codes "OperationTimeout") (codes "must not be negative"))))
        ⊎ ((service : Service) × (int_lt s.operation_timeout (pos 0) ≡ false)
            × (new defaults s ≡ inr service)
            × IsComplete s service)
  unfolding new built
  new-cases s = elim (Bool-cases (int_lt s.operation_timeout (pos 0))) [
    | inl e ↦ inl (e, rw (new, validate-filled s, e) refl)
    | inr e ↦ inr (built s, e, rw (new, validate-filled s, e) refl, built-IsComplete s)
  ]
