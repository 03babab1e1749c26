-- ===== src/Tests/Containers.antt =====
-- The theorems on containers that are created again, at concrete inputs.
use updater.Common.{
  ◌≡◌, refl, ◌≢◌, ◌↔◌, ◌⊎◌, inl, inr, true, Option, none, some, [], ◌∷◌, Distinct, Text, codes,
  trim_space, Map, lookup, text_functions,
}
use updater.Docker.{EndpointSettings, Endpoints, CreateOptions}
use updater.Compat.{container_create, api_version_at_least, parse_api_version, Version, names_of}
use updater.Ports.{◌>>=◌}
use updater.Compat.Order.{IsAtLeast}
use updater.Compat.Versions.{IsVersion, api_version_at_least_lem}
use updater.Compat.Create.{IsOneOf, joined}
use updater.Common.Int.{atoi}
use updater.Compat.Connect.{IsCreation, IsSameContainer, container_create-IsCreation}
use updater.Container.{refresh_recreated_image_labels, create_start_or_rollback}
use updater.Container.Labels.{recreated_value, IsImageLabel, refresh_recreated_image_labels-lookup}
use updater.Container.Rollback.{Refuses, create_start_or_rollback-refused}
use updater.Tests.Data.{lib, docker, config, refuse, summary, inspection, image_config}

abbrev no_settings : Option EndpointSettings
no_settings = none

abbrev two_networks : Endpoints
two_networks = (codes "front", no_settings) ∷ (codes "back", no_settings) ∷ []

abbrev create_options : CreateOptions
create_options = record {
  config = image_config;
  host_config = none;
  networking_config = some two_networks;
  name = codes "web";
}

two_networks-Distinct : Distinct (names_of two_networks)
unfolding text_functions
two_networks-Distinct = (λ m. elim m [ inl e ↦ absurd cc | inr n ↦ absurd n ], (λ n. absurd n, tt))

created_with_networks :
    (container_create docker create_options (codes "1.43") []).0 ≡ (codes "new", none)
unfolding container_create api_version_at_least text_functions ◌>>=◌ atoi
created_with_networks = refl

new_not_blank : trim_space (codes "new") ≢ []
unfolding text_functions
new_not_blank e = cc

container_create-IsCreation_example :
    (prepared : CreateOptions × Endpoints) × IsCreation prepared
      (codes "new")
      []
      (container_create docker create_options (codes "1.43") []).1
    × IsSameContainer create_options prepared.0
    × ((k : Text) → IsOneOf (lookup two_networks k) (joined prepared k))
container_create-IsCreation_example =
    container_create-IsCreation docker create_options two_networks (codes "1.43") [] (codes "new")
      refl two_networks-Distinct created_with_networks new_not_blank

abbrev old_labels : Map Text
old_labels = (codes "com.docker.compose.image", codes "sha256:0") ∷ (codes "app", codes "web") ∷ []

abbrev new_labels : Map Text
new_labels =
    (codes "org.opencontainers.image.version", codes "2") ∷ (codes "app", codes "other") ∷ []

refresh_recreated_image_labels-lookup_example :
    (lookup old_labels (codes "app") ≡ some (codes "web")
      → lookup
          (refresh_recreated_image_labels old_labels new_labels (codes "sha256:1"))
          (codes "app")
        ≡ some (recreated_value (codes "sha256:1") (codes "app") (codes "web")))
    × (lookup
            (refresh_recreated_image_labels old_labels new_labels (codes "sha256:1"))
            (codes "app")
          ≡ some (codes "web")
        → (w : Text) × (codes "web" ≡ recreated_value (codes "sha256:1") (codes "app") w)
          × ((lookup old_labels (codes "app") ≡ some w) ⊎ IsImageLabel new_labels (codes "app") w))
refresh_recreated_image_labels-lookup_example =
    refresh_recreated_image_labels-lookup old_labels new_labels (codes "sha256:1") (codes "app")
      (codes "web")

config-Refuses : Refuses config (codes "container_update") (codes "refused")
unfolding text_functions
config-Refuses = (refuse (codes "container_update"), refl, λ h id name. refl)

create_start_or_rollback-refused_example :
    (f : Text) × ((create_start_or_rollback lib config docker
        (summary (codes "web") (codes "web:1"))
        inspection
        (codes "web:2")
        []).0
      ≡ some f)
create_start_or_rollback-refused_example =
    create_start_or_rollback-refused lib config docker (summary (codes "web") (codes "web:1"))
      inspection (codes "refused") (codes "web:2") [] config-Refuses

api_version_at_least_lem_example :
    ((api_version_at_least (codes "v1.44") (codes "1.43.2") ≡ true) ↔ (
      (v w : Version) × (parse_api_version (codes "v1.44") ≡ some v)
      × (parse_api_version (codes "1.43.2") ≡ some w)
      × IsAtLeast v w))
    × (api_version_at_least (codes "v1.44") (codes "1.43.2") ≡ true
        → api_version_at_least (codes "1.43.2") (codes "1.43") ≡ true
        → api_version_at_least (codes "v1.44") (codes "1.43") ≡ true)
    × (IsVersion (codes "v1.44")
        → IsVersion (codes "1.43.2")
        → (api_version_at_least (codes "v1.44") (codes "1.43.2") ≡ true)
          ⊎ (api_version_at_least (codes "1.43.2") (codes "v1.44") ≡ true))
    × (api_version_at_least (codes "v1.44") (codes "1.43.2") ≡ true
        → api_version_at_least (codes "1.43.2") (codes "v1.44") ≡ true
        → parse_api_version (codes "v1.44") ≡ parse_api_version (codes "1.43.2"))
api_version_at_least_lem_example =
    api_version_at_least_lem (codes "v1.44") (codes "1.43.2") (codes "1.43")
