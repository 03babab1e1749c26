-- ===== src/Compat/Create.antt =====
-- The networks of a container on an old API: one at its creation, the others afterwards.
use updater.Common.{
  ◌≡◌, refl, sym, ap, ◌∙◌, ◌≢◌, ◌⊎◌, inl, inr, true, false, not, ◌&&◌, ◌||◌, Option, none, some,
  List, [], ◌∷◌, arith, if◌then◌else◌, Bool-cases, Option-cases, In, Text, ◌==◌, eq_iff, eq_refl,
  is_empty, is_empty_iff, trim_space, lookup, sort_texts, sort_texts-In,
}
use updater.Docker.{EndpointSettings, Endpoints, HostConfig, CreateOptions}
use updater.Compat.{
  prepare_create_options, resolve_primary_network, other_endpoints, api_version_at_least,
  min_api_version, named_endpoint, first_name, names_of, mode_of, endpoint_at, split_options,
  has_two,
}

lookup-names :
    (m : Endpoints) (k : Text)
    → In k (names_of m)
    → (e : Option EndpointSettings) × (lookup m k ≡ some e)
unfolding lookup
lookup-names [] k m = absurd m
lookup-names ((j, w) ∷ m) k (inl e) = (w, rw (e, eq_refl j, lookup) refl)
lookup-names ((j, w) ∷ m) k (inr l) = elim (Bool-cases (j == k)) [
  | inl same ↦ (w, rw (same, lookup) refl)
  | inr other ↦ let (e, h) = lookup-names m k l in (e, rw (other, lookup) h)
]

named_endpoint-lookup :
    (m : Endpoints) (mode : Text)
    → named_endpoint m mode ≡ true
    → (e : Option EndpointSettings) × (lookup m mode ≡ some e)
named_endpoint-lookup m mode h = elim (Option-cases (lookup m mode)) [
  | inr (e, found) ↦ (e, found)
  | inl missing ↦ let no : false ≡ true = rw (missing, named_endpoint) at h in absurd cc
]

first_name-In : (ns : List Text) → first_name ns ≢ [] → In (first_name ns) ns
first_name-In [] ne = absurd (ne refl)
first_name-In (n ∷ ns) ne = inl refl

-- The primary network is one of the networks.
resolve_primary_network-lookup :
    (host : Option HostConfig) (m : Endpoints)
    → resolve_primary_network host m ≢ []
    → (e : Option EndpointSettings) × (lookup m (resolve_primary_network host m) ≡ some e)
unfolding resolve_primary_network
resolve_primary_network-lookup host m ne =
    let mode = trim_space (mode_of host) in
    elim (Bool-cases (not (is_empty mode) && named_endpoint m mode)) [
      | inl named ↦
          let is : resolve_primary_network host m ≡ mode = rw (named, resolve_primary_network) in
          let (e, h) = named_endpoint-lookup m mode (ground (arith, named)) in (e, rw is h)
      | inr free ↦
          let first = first_name (sort_texts (names_of m)) in
          let is : resolve_primary_network host m ≡ first = rw (free, resolve_primary_network) in
          let ne' : first ≢ [] = λ z. ne (is ∙ z) in
          let (e, h) =
            lookup-names m first ((sort_texts-In first (names_of m)).0 (first_name-In _ ne')) in
          (e, rw is h)
    ]

other_endpoints-lookup :
    (primary : Text) (m : Endpoints) (k : Text)
    → lookup (other_endpoints primary m) k ≡ (if primary == k then none else lookup m k)
unfolding other_endpoints lookup
other_endpoints-lookup primary [] k = ground arith
other_endpoints-lookup primary ((j, w) ∷ m) k =
    ground
      (arith, eq_iff primary k, eq_iff j primary, eq_iff j k, other_endpoints-lookup primary m k)

abbrev or_none : Option Endpoints → Endpoints
or_none none = []
or_none (some m) = m

-- The settings under which a container joins network `k`: at its creation, or afterwards.
abbrev pub joined :
    CreateOptions × Endpoints
    → Text
    → Option (Option EndpointSettings) × Option (Option EndpointSettings)
joined (adjusted, extra) k = (lookup (or_none adjusted.networking_config) k, lookup extra k)

-- Exactly one of the two has the settings, or neither where there are none.
abbrev pub IsOneOf : {A : Type 0} → Option A → Option A × Option A → Type 0
IsOneOf all (now, later) = ((now ≡ all) × (later ≡ none)) ⊎ ((now ≡ none) × (later ≡ all))

split-joined :
    (options : CreateOptions) (m : Endpoints) (primary k : Text)
    → options.networking_config ≡ some m
    → ((primary ≢ []) → (e : Option EndpointSettings) × (lookup m primary ≡ some e))
    → IsOneOf (lookup m k) (joined (split_options options m primary) k)
unfolding lookup
split-joined options m primary k has found = elim (Bool-cases (is_empty primary)) [
  | inl blank ↦ rw blank (inl (rw has refl, refl))
  | inr named ↦
      let ne : primary ≢ [] = λ z. ground (arith, is_empty_iff primary, z) in
      let (e, at) = found ne in
      elim (Bool-cases (primary == k)) [
        | inl same ↦
            let k_is : primary ≡ k = (eq_iff primary k).0 same in
            let here : endpoint_at m primary ≡ e = rw (at, endpoint_at) refl in
            let single : lookup ((primary, endpoint_at m primary) ∷ []) k
                ≡ some (endpoint_at m primary) =
              rw (same, lookup) refl in
            let now : lookup ((primary, endpoint_at m primary) ∷ []) k ≡ lookup m k =
              single ∙ ap some here ∙ sym at ∙ ap (lookup m) k_is in
            let later : lookup (other_endpoints primary m) k ≡ none =
              rw (other_endpoints-lookup primary m k, same) refl in
            rw named (inl (now, later))
        | inr other ↦
            let now : lookup ((primary, endpoint_at m primary) ∷ []) k ≡ none =
              rw (other, lookup) refl in
            let later : lookup (other_endpoints primary m) k ≡ lookup m k =
              rw (other_endpoints-lookup primary m k, other) refl in
            rw named (inr (now, later))
      ]
]

-- A container that is created again joins each of its networks once: either at its creation or,
-- on an API that takes one network there, by a connection afterwards, with the same settings.
pub prepare_create_options-joined :
    (options : CreateOptions) (m : Endpoints) (api_version k : Text)
    → options.networking_config ≡ some m
    → IsOneOf (lookup m k) (joined (prepare_create_options options api_version) k)
unfolding prepare_create_options lookup
prepare_create_options-joined options m api_version k has =
    elim (Bool-cases (api_version_at_least api_version min_api_version || not (has_two m))) [
      | inl whole ↦
          let is : prepare_create_options options api_version ≡ (options, []) =
            simp (has, whole, prepare_create_options) in
          rw is (inl (rw has refl, refl))
      | inr several ↦
          let is : prepare_create_options options api_version
              ≡ split_options options m (resolve_primary_network options.host_config m) =
            simp (has, several, prepare_create_options) in
          rw is
            (split-joined options m _ k has (resolve_primary_network-lookup options.host_config m))
    ]
