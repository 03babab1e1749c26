-- ===== src/RegistryHost.antt =====
-- internal/registryhost/registryhost.go: one spelling for each container registry.
use updater.Common.{
  ◌||◌, [], ◌++◌, if◌then◌else◌, Result, ok, err, Text, codes, ◌==◌, is_empty, trim_space, to_lower,
  trim_suffix, before_sep,
}
use updater.Libraries.{Libraries}

abbrev pub default_registry_domain : Text
default_registry_domain = codes "docker.io"

abbrev pub default_registry_host : Text
default_registry_host = codes "registry-1.docker.io"

unfoldable pub before_slash : Text → Text
before_slash s = before_sep s b'/'

module _ (lib : Libraries) where
  unfoldable pub auth_address : Text → Result Text
  auth_address image_ref = elim (lib.parse_normalized_named image_ref) [
    | err e ↦ err (codes "parse image reference: " ++ e)
    | ok named ↦
        if named.domain == default_registry_domain
        then ok default_registry_host
        else ok named.domain
  ]

  unfoldable pub strip_scheme : Text → Text
  strip_scheme raw_url =
      let raw = trim_space raw_url in
      elim (lib.parse_url raw) [
        | err e ↦ trim_suffix raw (codes "/")
        | ok parsed ↦
            if is_empty parsed.scheme || is_empty parsed.host
            then trim_suffix raw (codes "/")
            else trim_suffix
                (parsed.host
                  ++ (parsed.escaped_path
                      ++ (if is_empty parsed.raw_query then [] else codes "?" ++ parsed.raw_query)))
                (codes "/")
      ]

  unfoldable pub normalize : Text → Text
  normalize raw_url =
      let registry_host = before_slash (to_lower (strip_scheme raw_url)) in
      if registry_host == codes "docker.io"
        || registry_host == codes "registry-1.docker.io"
        || registry_host == codes "index.docker.io"
      then default_registry_domain
      else registry_host
