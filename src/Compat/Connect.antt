-- ===== src/Compat/Connect.antt =====
-- The requests with which a container is created and joins its networks.
use updater.Common.{
  ◌≡◌, refl, sym, ap, ◌∙◌, ◌≢◌, inl, inr, false, not, ◌||◌, none, some, List, [], ◌∷◌, ◌++◌, arith,
  Bool-cases, Option-cases, In, Distinct, Result, ok, err, Text, ◌==◌, is_empty, is_empty_iff,
  trim_space, lookup, sort_texts, sort_texts-Distinct,
}
use updater.Docker.{Endpoints, CreateOptions}
use updater.Ports.{Request, History, DockerClient, ◌>>=◌}
use updater.Compat.{
  prepare_create_options, resolve_primary_network, other_endpoints, api_version_at_least,
  min_api_version, names_of, endpoint_at, has_two, connect_names, connect_extra_networks,
  container_create,
}
use updater.Compat.Create.{IsOneOf, joined, prepare_create_options-joined}
use mathlib.Core.List.{append_assoc}

-- One connection for each of the networks, with its settings; the latest stands in front.
abbrev pub connections : Text → Endpoints → List Text → History
connections id endpoints [] = []
connections id endpoints (name ∷ names) =
    connections id endpoints names
    ++ Request.network_connect name id (endpoint_at endpoints name) ∷ []

some_ne : {e : Text} → some e ≡ none → ⊥
some_ne f = cc

-- A loop that ends with no error has connected every network.
connect_names-connections :
    (docker : DockerClient) (id : Text) (endpoints : Endpoints) (names : List Text) (h : History)
    → (connect_names docker id endpoints names h).0 ≡ none
    → (connect_names docker id endpoints names h).1 ≡ connections id endpoints names ++ h
unfolding connect_names ◌>>=◌
connect_names-connections docker id endpoints [] h e = refl
connect_names-connections docker id endpoints (name ∷ names) h e =
    elim (Option-cases (docker.network_connect h name id (endpoint_at endpoints name))) [
      | inr (f, refused) ↦ absurd (some_ne (rw (refused, connect_names) at e))
      | inl connected ↦
          let request = Request.network_connect name id (endpoint_at endpoints name) in
          let rest : (connect_names docker id endpoints names (request ∷ h)).0 ≡ none =
            rw (connected, connect_names) at e in
          let step : (connect_names docker id endpoints (name ∷ names) h).1
              ≡ (connect_names docker id endpoints names (request ∷ h)).1 =
            rw (connected, connect_names) refl in
          step
          ∙ connect_names-connections docker id endpoints names (request ∷ h) rest
          ∙ sym (append_assoc (connections id endpoints names) (request ∷ []) h)
    ]

other_endpoints-names :
    (primary k : Text) (m : Endpoints)
    → In k (names_of (other_endpoints primary m))
    → In k (names_of m)
unfolding other_endpoints
other_endpoints-names primary k [] i = i
other_endpoints-names primary k ((j, w) ∷ m) i = ground (arith, other_endpoints-names primary k m)

other_endpoints-Distinct :
    (primary : Text) (m : Endpoints)
    → Distinct (names_of m)
    → Distinct (names_of (other_endpoints primary m))
unfolding other_endpoints
other_endpoints-Distinct primary [] d = d
other_endpoints-Distinct primary ((j, w) ∷ m) d = elim (Bool-cases (j == primary)) [
  | inl same ↦ rw (same, other_endpoints) (other_endpoints-Distinct primary m d.1)
  | inr other ↦
      rw (other, other_endpoints)
        (λ i. d.0 (other_endpoints-names primary j m i), other_endpoints-Distinct primary m d.1)
]

extra_endpoints-Distinct :
    (options : CreateOptions) (m : Endpoints) (api_version : Text)
    → options.networking_config ≡ some m
    → Distinct (names_of m)
    → Distinct (names_of (prepare_create_options options api_version).1)
unfolding prepare_create_options
extra_endpoints-Distinct options m api_version has d =
    elim (Bool-cases (api_version_at_least api_version min_api_version || not (has_two m))) [
      | inl whole ↦ rw (has, whole, prepare_create_options) tt
      | inr several ↦
          let primary = resolve_primary_network options.host_config m in
          elim (Bool-cases (is_empty primary)) [
            | inl blank ↦ rw (has, several, blank, prepare_create_options) tt
            | inr named ↦
                rw (has, several, named, prepare_create_options)
                  (other_endpoints-Distinct primary m d)
          ]
    ]

-- The adjusted options name the same container, with the same configuration.
abbrev pub IsSameContainer : CreateOptions → CreateOptions → Type 0
IsSameContainer options adjusted =
    (adjusted.name ≡ options.name) × (adjusted.config ≡ options.config)

prepare_create_options-IsSameContainer :
    (options : CreateOptions) (m : Endpoints) (api_version : Text)
    → options.networking_config ≡ some m
    → IsSameContainer options (prepare_create_options options api_version).0
unfolding prepare_create_options
prepare_create_options-IsSameContainer options m api_version has =
    elim (Bool-cases (api_version_at_least api_version min_api_version || not (has_two m))) [
      | inl whole ↦ rw (has, whole, prepare_create_options) (refl, refl)
      | inr several ↦ elim (Bool-cases (is_empty (resolve_primary_network options.host_config m))) [
        | inl blank ↦ rw (has, several, blank, prepare_create_options) (refl, refl)
        | inr named ↦ rw (has, several, named, prepare_create_options) (refl, refl)
      ]
    ]

-- The requests of a creation that ended with no error: first the creation with `adjusted`, then one
-- connection for each network of `extra`, each of them once.
abbrev pub IsCreation : CreateOptions × Endpoints → (id : Text) → (before after : History) → Type 0
IsCreation (adjusted, extra) id before after =
    let names = sort_texts (names_of extra) in
    (after ≡ connections id extra names ++ Request.container_create adjusted ∷ before)
    × Distinct names

connect_extra_networks-connections :
    (docker : DockerClient) (id : Text) (extra : Endpoints) (h : History)
    → trim_space id ≢ []
    → (connect_extra_networks docker id extra h).0 ≡ none
    → (connect_extra_networks docker id extra h).1
      ≡ connections id extra (sort_texts (names_of extra)) ++ h
unfolding connect_extra_networks
connect_extra_networks-connections docker id extra h ne e =
    let named : is_empty (trim_space id) ≡ false = ground (arith, is_empty_iff (trim_space id)) in
    let is : connect_extra_networks docker id extra h
        ≡ connect_names docker id extra (sort_texts (names_of extra)) h =
      rw (named, connect_extra_networks) refl in
    ap (λ p. p.1) is
    ∙ connect_names-connections docker id extra (sort_texts (names_of extra)) h
        (sym (ap (λ p. p.0) is) ∙ e)

container_create-connections :
    (docker : DockerClient) (options : CreateOptions) (api_version : Text) (h : History) (id : Text)
    → (container_create docker options api_version h).0 ≡ (id, none)
    → trim_space id ≢ []
    → let prepared = prepare_create_options options api_version in
      (container_create docker options api_version h).1
      ≡ connections id prepared.1 (sort_texts (names_of prepared.1))
        ++ Request.container_create prepared.0 ∷ h
unfolding container_create ◌>>=◌
container_create-connections docker options api_version h id e ne =
    answered (docker.container_create h (prepare_create_options options api_version).0) refl
  where
    answered :
        (answer : Result Text)
        → docker.container_create h (prepare_create_options options api_version).0 ≡ answer
        → let prepared = prepare_create_options options api_version in
          (container_create docker options api_version h).1
          ≡ connections id prepared.1 (sort_texts (names_of prepared.1))
            ++ Request.container_create prepared.0 ∷ h
    answered (err f) q =
        let no : ([], some f) ≡ (id, none) = rw (q, container_create) at e in
        absurd (some_ne (ap (λ p. p.1) no))
    answered (ok new) q =
        let prepared = prepare_create_options options api_version in
        let connect =
          connect_extra_networks docker new prepared.1 (Request.container_create prepared.0 ∷ h) in
        let is : (new, connect.0) ≡ (id, none) = rw (q, container_create) at e in
        let same : new ≡ id = ap (λ p. p.0) is in
        let made : (container_create docker options api_version h).1 ≡ connect.1 =
          rw (q, container_create) refl in
        made
        ∙ connect_extra_networks-connections docker new prepared.1 _
            (λ z. ne (ap trim_space (sym same) ∙ z)) (ap (λ p. p.1) is)
        ∙ ap
            (λ i.
              connections i prepared.1 (sort_texts (names_of prepared.1))
              ++ Request.container_create prepared.0 ∷ h)
            same

-- On a list of networks with distinct names, a creation that returns a container's ID, not blank,
-- and no error has made exactly these requests: the creation with the adjusted options, then one
-- connection, with its settings, for each of the extra networks. The adjusted options have the name
-- and the configuration of the container. Each of its networks is either in the adjusted options or
-- an extra one, not both, with the settings that it had.
pub container_create-IsCreation :
    (docker : DockerClient) (options : CreateOptions) (m : Endpoints) (api_version : Text)
    (h : History) (id : Text)
    → options.networking_config ≡ some m
    → Distinct (names_of m)
    → (container_create docker options api_version h).0 ≡ (id, none)
    → trim_space id ≢ []
    → (prepared : CreateOptions × Endpoints) × IsCreation prepared id h
        (container_create docker options api_version h).1
      × IsSameContainer options prepared.0
      × ((k : Text) → IsOneOf (lookup m k) (joined prepared k))
container_create-IsCreation docker options m api_version h id has d e ne = (
  prepare_create_options options api_version,
  (
    container_create-connections docker options api_version h id e ne,
    sort_texts-Distinct _ (extra_endpoints-Distinct options m api_version has d),
  ),
  prepare_create_options-IsSameContainer options m api_version has,
  λ k. prepare_create_options-joined options m api_version k has,
)
