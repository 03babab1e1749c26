-- ===== src/Defaults/Auth.antt =====
-- The credentials for an image's registry, from Docker's configuration.
use updater.Common.{
  Bool, ◌&&◌, ◌||◌, Option, none, some, [], ◌++◌, if◌then◌else◌, Result, ok, err, Text, codes, ◌==◌,
  is_empty, trim_space,
}
use updater.Libraries.{Libraries}
use updater.RegistryHost.{auth_address, normalize}
use updater.Registry.Fetch.{Credentials}

-- `types.AuthConfig` of Docker's command line, and `registry.AuthConfig` of its API.
pub record AuthConfig : Type 0 where
  pub username : Text
  pub password : Text
  pub auth : Text
  pub server_address : Text
  pub identity_token : Text
  pub registry_token : Text

-- What the answers depend on outside the program: the environment variable of the configuration's
-- directory, `config.Load` with `GetAuthConfig` of what it loads, and `authconfig.Encode`.
pub record DockerConfig : Type 0 where
  pub config_dir : Text
  pub load_config : (dir : Text) → Result (Text → Result AuthConfig)
  pub encode_auth : AuthConfig → Result Text

unfoldable pub docker_registry_auth_config_from_docker_config : AuthConfig → AuthConfig
docker_registry_auth_config_from_docker_config a = record {
  username = trim_space a.username;
  password = trim_space a.password;
  auth = a.auth;
  server_address = trim_space a.server_address;
  identity_token = trim_space a.identity_token;
  registry_token = trim_space a.registry_token;
}

unfoldable pub default_docker_config_auth_empty : AuthConfig → Bool
default_docker_config_auth_empty a =
    is_empty (trim_space a.username)
    && is_empty (trim_space a.password)
    && is_empty (trim_space a.auth)
    && is_empty (trim_space a.identity_token)
    && is_empty (trim_space a.registry_token)

-- After the lookup of a server: `none` where there is no usable entry.
unfoldable pub found_auth_config : Result AuthConfig → Option AuthConfig
unfolding default_docker_config_auth_empty docker_registry_auth_config_from_docker_config
found_auth_config (err e) = none
found_auth_config (ok a) =
    if default_docker_config_auth_empty a
    then none
    else some (docker_registry_auth_config_from_docker_config a)

unfoldable pub loaded_auth_config :
    (server : Text) → Result (Text → Result AuthConfig) → Result (Option AuthConfig)
unfolding found_auth_config
loaded_auth_config server (err e) = err (codes "load Docker config: " ++ e)
loaded_auth_config server (ok get_auth_config) = ok (found_auth_config (get_auth_config server))

-- The user name and the password, or else the identity token; `none` where one of them is blank.
unfoldable pub credentials_of : Option AuthConfig → Option Credentials
credentials_of none = none
credentials_of (some a) =
    let username = trim_space a.username in
    let password = trim_space a.password in
    let token = if is_empty password then trim_space a.identity_token else password in
    if is_empty username || is_empty token
    then none
    else some (record { username = username; token = token })

-- `client.ImagePullOptions`.
pub record ImagePullOptions : Type 0 where
  pub registry_auth : Text
  pub privilege_func : Option (Result Text)

abbrev pub default_anonymous_auth_handler : Result Text
default_anonymous_auth_handler = ok []

module _ (lib : Libraries) (docker : DockerConfig) where
  -- Whose credentials are looked up.
  unfoldable pub auth_server : (address : Text) → Text
  auth_server address =
      if normalize lib address == codes "docker.io" then codes "docker.io" else address

  unfoldable pub default_registry_auth_config : (image_ref : Text) → Result (Option AuthConfig)
  unfolding auth_server loaded_auth_config
  default_registry_auth_config image_ref = elim (auth_address lib image_ref) [
    | err e ↦ err (codes "get registry address: " ++ e)
    | ok address ↦
        loaded_auth_config (auth_server address) (docker.load_config (trim_space docker.config_dir))
  ]

  unfoldable pub pull_options_of : Option AuthConfig → Result ImagePullOptions
  pull_options_of none = ok (record { registry_auth = []; privilege_func = none })
  pull_options_of (some a) = elim (docker.encode_auth a) [
    | err e ↦ err (codes "encode registry auth: " ++ e)
    | ok encoded ↦
        ok
          (record { registry_auth = encoded; privilege_func = some default_anonymous_auth_handler })
  ]

  unfoldable pub default_image_pull_options : (image_ref : Text) → Result ImagePullOptions
  unfolding default_registry_auth_config pull_options_of
  default_image_pull_options image_ref = elim (default_registry_auth_config image_ref) [
    | err e ↦ err e
    | ok found ↦ pull_options_of found
  ]

  unfoldable pub default_digest_credentials : (image_ref : Text) → Result (Option Credentials)
  unfolding default_registry_auth_config credentials_of
  default_digest_credentials image_ref = elim (default_registry_auth_config image_ref) [
    | err e ↦ err e
    | ok found ↦ ok (credentials_of found)
  ]
