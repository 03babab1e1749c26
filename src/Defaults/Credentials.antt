-- ===== src/Defaults/Credentials.antt =====
-- Whose credentials a registry is asked with.
use updater.Common.{
  ◌≡◌, refl, ◌≢◌, ◌⊎◌, inl, inr, Option, none, some, [], arith, Bool-cases, Result, ok, err, Text,
  is_empty_iff, trim_space, trim_space_idem,
}
use updater.Libraries.{Libraries}
use updater.RegistryHost.{auth_address}
use updater.Registry.Fetch.{Credentials}
use updater.Registry.Exchange.{Result-All}
use updater.Defaults.Auth.{
  AuthConfig, DockerConfig, docker_registry_auth_config_from_docker_config, found_auth_config,
  loaded_auth_config, credentials_of, auth_server, default_docker_config_auth_empty,
  default_registry_auth_config, default_digest_credentials,
}

-- The user name of an entry, and its password or, where that is blank, its identity token; both
-- trimmed, neither empty.
pub record IsOfEntry (a : AuthConfig) (c : Credentials) : Type 0 where
  pub username_is : c.username ≡ trim_space a.username
  pub username_ne : c.username ≢ []
  pub token_ne : c.token ≢ []
  pub token_is :
      (c.token ≡ trim_space a.password)
      ⊎ ((trim_space a.password ≡ []) × (c.token ≡ trim_space a.identity_token))

module _ (lib : Libraries) (docker : DockerConfig) (image_ref : Text) where
  -- Credentials, if any, are those of the configuration's entry for the image's registry.
  abbrev pub IsOwnEntry : Option Credentials → Type 0
  IsOwnEntry none = Unit
  IsOwnEntry (some c) =
      (address : Text) × (get : Text → Result AuthConfig) × (a : AuthConfig) × (auth_address lib
          image_ref
        ≡ ok address)
      × (docker.load_config (trim_space docker.config_dir) ≡ ok get)
      × (get (auth_server lib docker address) ≡ ok a)
      × IsOfEntry a c

credentials_of-IsOfEntry :
    (a : AuthConfig) (c : Credentials)
    → credentials_of (some (docker_registry_auth_config_from_docker_config a)) ≡ some c
    → IsOfEntry a c
unfolding credentials_of docker_registry_auth_config_from_docker_config
credentials_of-IsOfEntry a c e = ground (
  arith,
  trim_space_idem a.username,
  trim_space_idem a.password,
  trim_space_idem a.identity_token,
  is_empty_iff (trim_space a.username),
  is_empty_iff (trim_space a.password),
  is_empty_iff (trim_space a.identity_token),
)

module _ (lib : Libraries) (docker : DockerConfig) (image_ref : Text) where
  found-IsOwnEntry :
      (address : Text) (get : Text → Result AuthConfig) (entry : Result AuthConfig)
      → auth_address lib image_ref ≡ ok address
      → docker.load_config (trim_space docker.config_dir) ≡ ok get
      → get (auth_server lib docker address) ≡ entry
      → IsOwnEntry lib docker image_ref (credentials_of (found_auth_config entry))
  unfolding found_auth_config
  found-IsOwnEntry address get (err e) at load entry_is = unfold credentials_of in tt
  found-IsOwnEntry address get (ok a) at load entry_is =
      elim (Bool-cases (default_docker_config_auth_empty a)) [
        | inl e ↦ rw (found_auth_config, e) (unfold credentials_of in tt)
        | inr e ↦ rw (found_auth_config, e) (used (credentials_of _) refl)
      ]
    where
      used :
          (c : Option Credentials)
          → credentials_of (some (docker_registry_auth_config_from_docker_config a)) ≡ c
          → IsOwnEntry lib docker image_ref c
      used none e = tt
      used (some c) e = (address, get, a, at, load, entry_is, credentials_of-IsOfEntry a c e)

  pub default_digest_credentials-IsOwnEntry :
      Result-All (IsOwnEntry lib docker image_ref) (default_digest_credentials lib docker image_ref)
  unfolding default_digest_credentials default_registry_auth_config
  default_digest_credentials-IsOwnEntry = addressed (auth_address lib image_ref) refl
    where
      loaded :
          (address : Text) (config : Result (Text → Result AuthConfig))
          → auth_address lib image_ref ≡ ok address
          → docker.load_config (trim_space docker.config_dir) ≡ config
          → Result-All
              (IsOwnEntry lib docker image_ref)
              (elim (loaded_auth_config (auth_server lib docker address) config) [
                | err e ↦ err e
                | ok found ↦ ok (credentials_of found)
              ])
      loaded address (err e) at load = unfold loaded_auth_config in tt
      loaded address (ok get) at load =
          unfold loaded_auth_config in found-IsOwnEntry address get _ at load refl

      addressed :
          (address : Result Text)
          → auth_address lib image_ref ≡ address
          → Result-All
              (IsOwnEntry lib docker image_ref)
              (default_digest_credentials lib docker image_ref)
      addressed (err e) at = rw (default_digest_credentials, default_registry_auth_config, at) tt
      addressed (ok address) at =
          rw (default_digest_credentials, default_registry_auth_config, at)
            (loaded address _ at refl)
