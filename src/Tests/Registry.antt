-- ===== src/Tests/Registry.antt =====
-- The theorems on registries and on the default resolver at a registry that wants a token.
use updater.Common.{
  ◌≡◌, refl, true, false, ◌||◌, none, some, [], ◌∷◌, ◌++◌, arith, if◌then◌else◌, drop, ok, err,
  Text, codes, ◌==◌, is_space, trim_space, has_prefix, text_functions,
}
use updater.Libraries.{Libraries, HttpLibraries, Url}
use updater.Common.Int.{atoi, decimal, decimal_from}
use updater.RegistryHost.{normalize, strip_scheme, before_slash}
use updater.Ports.{HttpClient, Ensures, ◌>>=◌}
use updater.Registry.Trim.{trim_char, trim_char_left, trim_char_right}
use updater.Registry.Challenge.{
  parse_www_auth, split_auth_params, split_loop, split_step, split_end, read_params, read_param,
  note_param,
}
use updater.Registry.Printing.{Param, print_challenge, IsParam}
use updater.Registry.RoundTrip.{last_value, parse_www_auth-print_challenge}
use updater.Registry.RateLimit.{extract_rate_limit_from_headers, parse_rate_limit_header}
use updater.Registry.Quota.{is_some, described, extract_rate_limit-described}
use updater.Registry.Fetch.{
  get_method, head_method, authorized_manifest_headers, fetch_digest, client_or, manifest_request,
  send, answered, challenged, retry, authorized, accepted, fetch_registry_token, read_token, bearer,
  token_url, validate_auth_realm, check_realm, manifest_url, basic_auth_header_for_credential,
  basic_auth, usable_credential, required_digest, extract_digest_from_headers, first_header,
  is_fallback_eligible_daemon_error, contains_any,
}
use updater.Registry.Exchange.{
  Result-All, IsTrusted, IsServed, authorized_manifest_headers-IsTrusted,
}
use updater.Registry.Bounds.{MakesAtMost, authorized_manifest_headers-MakesAtMost}
use updater.Defaults.Auth.{AuthConfig, DockerConfig}
use updater.Defaults.Ports.{image_digest}
use updater.Defaults.Resolver.{IsOwnRequest, IsOwnDigest, image_digest-IsOwn}
use updater.Tests.Data.{lib as plain_lib}

abbrev url : Text → Url
url s = record {
  scheme = if has_prefix s (codes "https:") then codes "https" else [];
  host = drop 8 s;
  hostname = drop 8 s;
  escaped_path = [];
  raw_query = [];
}

abbrev lib : Libraries
lib = record plain_lib { parse_url = λ s. ok (url s) }

abbrev http : HttpLibraries
http = record {
  print_url = λ scheme host path. scheme ++ (codes "://" ++ (host ++ path));
  set_query = λ raw_url pairs. raw_url ++ codes "?scope";
  request_error = λ method url. none;
  encode_base64 = λ s. s;
  decode_token = λ body. ok (body, []);
}

abbrev realm : Text
realm = codes "https://auth"

-- The token server answers a token, and the registry wants it.
abbrev client : HttpClient
client h request =
    if has_prefix request.url realm
    then ok (record { status_code = 200; header = λ key. []; body = codes " abc " })
    else elim request.authorization [
      | none ↦ ok (record {
        status_code = 401;
        header = λ key. codes "Bearer realm=\"https://auth\",service=\"a,b\"";
        body = [];
      })
      | some token ↦ ok (record {
        status_code = 200;
        header = λ key. if key == codes "OCI-Content-Digest" then codes " sha256:1" else [];
        body = [];
      })
    ]

abbrev host : Text
host = codes "ghcr.io"

digest_found :
    (fetch_digest lib http client none host (codes "/a/b/") (codes "1") none []).0
    ≡ ok (codes "sha256:1")
unfolding text_functions fetch_digest client_or authorized_manifest_headers manifest_request send
    manifest_url normalize strip_scheme before_slash answered challenged retry authorized accepted
    fetch_registry_token read_token bearer token_url validate_auth_realm check_realm
    basic_auth_header_for_credential basic_auth usable_credential required_digest
    extract_digest_from_headers first_header parse_www_auth split_auth_params split_loop split_step
    split_end read_params read_param note_param trim_char trim_char_left trim_char_right decimal
    decimal_from ◌>>=◌
digest_found = refl

authorized_manifest_headers-IsTrusted_example :
    Ensures
      (IsTrusted lib http get_method host (codes "a") (codes "1") none)
      (Result-All (IsServed lib http client get_method host (codes "a") (codes "1") none))
      (authorized_manifest_headers lib http client get_method host (codes "a") (codes "1") none)
authorized_manifest_headers-IsTrusted_example =
    authorized_manifest_headers-IsTrusted lib http client get_method host (codes "a") (codes "1")
      none

authorized_manifest_headers-MakesAtMost_example :
    MakesAtMost 3
      (authorized_manifest_headers lib http client head_method host (codes "a") (codes "1") none)
authorized_manifest_headers-MakesAtMost_example =
    authorized_manifest_headers-MakesAtMost lib http client head_method host (codes "a") (codes "1")
      none

abbrev realm_param : Param
realm_param = record { key = codes "Realm"; value = codes "https://a,b" }

abbrev service_param : Param
service_param = record { key = codes "service"; value = codes "x" }

realm_param-IsParam : IsParam realm_param
unfolding text_functions
realm_param-IsParam = ground arith

service_param-IsParam : IsParam service_param
unfolding text_functions
service_param-IsParam = ground arith

space_gap : (is_space b' ' ≡ true) × Unit {0}
unfolding is_space
space_gap = (refl, tt)

parse_www_auth-print_challenge_example :
    parse_www_auth (print_challenge (b' ' ∷ []) (realm_param ∷ service_param ∷ [])) ≡ (
      last_value (codes "realm") (realm_param ∷ service_param ∷ []),
      last_value (codes "service") (realm_param ∷ service_param ∷ []),
    )
parse_www_auth-print_challenge_example =
    parse_www_auth-print_challenge realm_param (service_param ∷ []) (b' ' ∷ []) space_gap
      (realm_param-IsParam, (service_param-IsParam, tt))

abbrev quota_headers : Text → Text
quota_headers key = if key == codes "Ratelimit-Remaining" then codes "76;w=21600" else []

extract_rate_limit-described_example : extract_rate_limit_from_headers quota_headers ≡ (
    if is_some (parse_rate_limit_header (quota_headers (codes "Ratelimit-Limit")))
      || (is_some (parse_rate_limit_header (quota_headers (codes "Ratelimit-Remaining")))
          || is_some (atoi (trim_space (quota_headers (codes "Docker-Ratelimit-Used")))))
    then ok (
        described
          (parse_rate_limit_header (quota_headers (codes "Ratelimit-Limit")))
          (parse_rate_limit_header (quota_headers (codes "Ratelimit-Remaining")))
          (atoi (trim_space (quota_headers (codes "Docker-Ratelimit-Used")))))
    else err (codes "no registry rate limit headers found"))
extract_rate_limit-described_example = extract_rate_limit-described quota_headers

fallbacks :
    (is_fallback_eligible_daemon_error (some (codes "Error: Not Found")) ≡ true)
    × (is_fallback_eligible_daemon_error (some (codes "status 404: TLS failed")) ≡ false)
unfolding text_functions is_fallback_eligible_daemon_error contains_any
fallbacks = (refl, refl)

abbrev entry : AuthConfig
entry = record {
  username = codes " me ";
  password = [];
  auth = [];
  server_address = [];
  identity_token = codes "secret";
  registry_token = [];
}

abbrev docker_config : DockerConfig
docker_config = record {
  config_dir = [];
  load_config = λ dir. ok (λ server. ok entry);
  encode_auth = λ a. ok a.username;
}

image_digest-IsOwn_example :
    Ensures
      (IsOwnRequest lib docker_config http (codes "web:1"))
      (Result-All (IsOwnDigest lib docker_config http (codes "web:1") client none))
      (image_digest lib docker_config http client none (codes "web:1"))
image_digest-IsOwn_example = image_digest-IsOwn lib docker_config http (codes "web:1") client none
