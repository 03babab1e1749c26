-- ===== src/Compat.antt =====
-- internal/compat/compat.go: the differences between versions of the Docker Engine API that matter
-- when a container is created again.
pub mod Create
pub mod Connect
pub mod Order
pub mod Versions
pub mod Engine
use updater.Common.{
  ℕ, zero, suc, ◌+◌, ◌-◌, ◌*◌, ◌≤◌, ◌<◌, ◌≡◌, refl, sym, ap, ◌∙◌, subst, ◌≢◌, ◌↔◌, ◌⊎◌, inl, inr,
  Bool, true, false, not, ◌&&◌, ◌||◌, Option, none, some, List, [], ◌∷◌, ◌++◌, map, arith, ltb, leb,
  num_eq, if◌then◌else◌, ltb→lt, leb→le, num_eq_iff, Bool-cases, Option-cases, length, get_elem?,
  set, take, drop, last?, length-append, In, All, Distinct, Includes, In-append_left,
  In-append_right, In-append_cases, In-middle, All-append, All-In, All-of_In, All-map,
  Distinct-append, Result, ok, err, Text, codes, ◌==◌, eq_iff, eq_refl, is_empty, is_empty_iff,
  is_space, trim_left, trim_right, trim_left, trim_right, trim_space, to_lower, to_upper, fold_case,
  equal_fold, has_prefix, trim_prefix_of, trim_prefix, trim_suffix, contains, cut, before_sep,
  split, join, text_lt, trim_space_idem, has_prefix_iff, Map, lookup, insert, delete, elem,
  lookup-insert, lookup-delete, elem_iff, not-In_of_elem, text_functions, sort_texts, sort_texts-In,
  sort_texts-Distinct,
}
use updater.Common.Int.{ℤ, pos, int_lt, atoi}
use updater.Docker.{EndpointSettings, Endpoints, HostConfig, CreateOptions}
use updater.Ports.{Request, DockerClient, Action, pure, ask, ◌>>=◌}

abbrev pub min_api_version : Text
min_api_version = codes "1.44"

-- A nil client has no version.
unfoldable pub detect_api_version : Option DockerClient → Action Text
detect_api_version none = pure []
detect_api_version (some docker) =
    let version = trim_space docker.client_version in
    if is_empty version
    then (ask Request.server_version docker.server_version >>= λ answer. elim answer [
      | err e ↦ pure []
      | ok server ↦ pure (trim_space server.api_version)
    ])
    else pure version

pub record Version : Type 0 where
  pub major : ℤ
  pub minor : ℤ
  pub patch : ℤ

unfoldable pub parse_component : Text → Option ℤ
parse_component part =
    let trimmed = trim_space part in if is_empty trimmed then none else atoi trimmed

abbrev version_of : Option ℤ → Option ℤ → Option ℤ → Option Version
version_of (some a) (some b) (some c) = some (record { major = a; minor = b; patch = c })
version_of (some a) (some b) none = none
version_of (some a) none c = none
version_of none b c = none

-- The first three components; a version of two components ends in 0.
unfoldable pub parse_components : List Text → Option Version
unfolding parse_component
parse_components [] = none
parse_components (a ∷ []) = none
parse_components (a ∷ b ∷ []) = version_of (parse_component a) (parse_component b) (some (pos 0))
parse_components (a ∷ b ∷ c ∷ more) =
    version_of (parse_component a) (parse_component b) (parse_component c)

unfoldable pub parse_api_version : Text → Option Version
unfolding parse_components
parse_api_version version =
    let trimmed = trim_space (trim_prefix version (codes "v")) in
    if is_empty trimmed then none else parse_components (split trimmed b'.')

-- The loop over the three components.
unfoldable pub version_at_least : Version → Version → Bool
version_at_least cur low =
    if int_lt low.major cur.major
    then true
    else if int_lt cur.major low.major
    then false
    else if int_lt low.minor cur.minor
    then true
    else if int_lt cur.minor low.minor
    then false
    else if int_lt low.patch cur.patch
    then true
    else not (int_lt cur.patch low.patch)

unfoldable pub api_version_at_least : Text → Text → Bool
unfolding parse_api_version version_at_least
api_version_at_least current minimum = elim (parse_api_version current) [
  | none ↦ false
  | some cur ↦ elim (parse_api_version minimum) [
    | none ↦ false
    | some low ↦ version_at_least cur low
  ]
]

abbrev without_mac : Bool → Option EndpointSettings → Option EndpointSettings
without_mac keep none = none
without_mac true (some endpoint) = some endpoint
without_mac false (some endpoint) = some (record endpoint { mac_address = none })

unfoldable pub sanitize_endpoints : Bool → Endpoints → Endpoints
sanitize_endpoints keep [] = []
sanitize_endpoints keep ((name, endpoint) ∷ endpoints) =
    (name, without_mac keep endpoint) ∷ sanitize_endpoints keep endpoints

unfoldable pub sanitize_endpoint_settings : Endpoints → Text → Endpoints
unfolding sanitize_endpoints api_version_at_least
sanitize_endpoint_settings endpoints api_version =
    sanitize_endpoints (api_version_at_least api_version min_api_version) endpoints

abbrev pub named_endpoint : Endpoints → Text → Bool
named_endpoint endpoints mode = elim (lookup endpoints mode) [
  | none ↦ false
  | some none ↦ false
  | some (some endpoint) ↦ true
]

-- The network mode of the host config; empty where the config is nil.
abbrev pub mode_of : Option HostConfig → Text
mode_of none = []
mode_of (some host) = host.network_mode

abbrev pub first_name : List Text → Text
first_name [] = []
first_name (name ∷ names) = name

abbrev pub names_of : Endpoints → List Text
names_of endpoints = map (λ entry. entry.0) endpoints

unfoldable pub resolve_primary_network : Option HostConfig → Endpoints → Text
resolve_primary_network host_config endpoints =
    let mode = trim_space (mode_of host_config) in
    if not (is_empty mode) && named_endpoint endpoints mode
    then mode
    else first_name (sort_texts (names_of endpoints))

-- A copy of the settings: equal to them, as the model shares nothing.
abbrev pub copy_endpoint_settings : Option EndpointSettings → Option EndpointSettings
copy_endpoint_settings endpoint = endpoint

abbrev blank_host_config : HostConfig
blank_host_config = record {
  links = [];
  network_mode = [];
  port_bindings = [];
  publish_all_ports = false;
  memory_swappiness = none;
  other = [];
}

abbrev with_mode : Option HostConfig → Text → HostConfig
with_mode none primary = record blank_host_config { network_mode = primary }
with_mode (some host) primary =
    if is_empty (trim_space host.network_mode) then record host { network_mode = primary } else host

abbrev pub endpoint_at : Endpoints → Text → Option EndpointSettings
endpoint_at endpoints name = elim (lookup endpoints name) [ none ↦ none | some e ↦ e ]

unfoldable pub other_endpoints : Text → Endpoints → Endpoints
other_endpoints primary [] = []
other_endpoints primary ((name, endpoint) ∷ endpoints) =
    let rest = other_endpoints primary endpoints in
    if name == primary then rest else (name, copy_endpoint_settings endpoint) ∷ rest

abbrev pub has_two : Endpoints → Bool
has_two [] = false
has_two (a ∷ []) = false
has_two (a ∷ b ∷ more) = true

abbrev pub split_options : CreateOptions → Endpoints → Text → CreateOptions × Endpoints
split_options options endpoints primary = if is_empty primary then (options, []) else (
  record options {
    host_config = some (with_mode options.host_config primary);
    networking_config =
        some ((primary, copy_endpoint_settings (endpoint_at endpoints primary)) ∷ []);
  },
  other_endpoints primary endpoints,
)

unfoldable pub prepare_create_options : CreateOptions → Text → CreateOptions × Endpoints
unfolding api_version_at_least resolve_primary_network other_endpoints
prepare_create_options options api_version = elim options.networking_config [
  | none ↦ (options, [])
  | some endpoints ↦
      if api_version_at_least api_version min_api_version || not (has_two endpoints)
      then (options, [])
      else split_options options endpoints (resolve_primary_network options.host_config endpoints)
]

module _ (docker : DockerClient) where
  unfoldable pub connect_names : Text → Endpoints → List Text → Action (Option Text)
  connect_names id endpoints [] = pure none
  connect_names id endpoints (name ∷ names) = do
    let settings = copy_endpoint_settings (endpoint_at endpoints name)
    failure ←
        ask (Request.network_connect name id settings)
          (λ h. docker.network_connect h name id settings)
    elim failure [
      | some e ↦ pure (some (codes "connect network " ++ (name ++ (codes ": " ++ e))))
      | none ↦ connect_names id endpoints names
    ]

  unfoldable pub connect_extra_networks : Text → Endpoints → Action (Option Text)
  unfolding connect_names
  connect_extra_networks id endpoints =
      if is_empty (trim_space id)
      then pure none
      else connect_names id endpoints (sort_texts (names_of endpoints))

  -- The ID of the created container, empty if there is none, and the error.
  unfoldable pub container_create : CreateOptions → Text → Action (Text × Option Text)
  unfolding connect_extra_networks prepare_create_options
  container_create options api_version = do
    let (adjusted, extra) = prepare_create_options options api_version
    created ← ask (Request.container_create adjusted) (λ h. docker.container_create h adjusted)
    elim created [
      | err e ↦ pure ([], some e)
      | ok id ↦ do failure ← connect_extra_networks id extra; pure (id, failure)
    ]
