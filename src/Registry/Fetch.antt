-- ===== src/Registry/Fetch.antt =====
-- The requests for a manifest and for a token. Deadlines show in the client's answers, and
-- redirects are the client's.
use updater.Common.{
  Bool, false, not, ◌||◌, Option, none, some, List, [], ◌∷◌, ◌++◌, num_eq, if◌then◌else◌, Result,
  ok, err, Text, codes, ◌==◌, is_empty, trim_space, to_lower, contains, join,
}
use updater.Common.Int.{decimal}
use updater.Libraries.{Libraries, HttpLibraries, Url}
use updater.RegistryHost
use updater.Ports.{HttpRequest, HttpResponse, HttpClient, Request, Action, pure, ask, ◌>>=◌}
use updater.Registry.Trim.{trim_char}
use updater.Registry.Challenge.{Challenge, parse_www_auth}
use updater.Registry.RateLimit.{RateLimitInfo, extract_rate_limit_from_headers}

pub record Credentials : Type 0 where
  pub username : Text
  pub token : Text

unfoldable pub contains_any : Text → List Text → Bool
contains_any s [] = false
contains_any s (word ∷ words) = contains s word || contains_any s words

abbrev pub blocked_words : List Text
blocked_words =
    codes "unauthorized"
    ∷ codes "authentication required"
    ∷ codes "no basic auth credentials"
    ∷ codes "access denied"
    ∷ codes "incorrect username or password"
    ∷ codes "status: 401"
    ∷ codes "status 401"
    ∷ codes "x509"
    ∷ codes "certificate"
    ∷ codes "tls"
    ∷ []

abbrev pub indicators : List Text
indicators =
    codes "not found"
    ∷ codes " 404 "
    ∷ codes "status: 404"
    ∷ codes "status 404"
    ∷ codes "403 forbidden"
    ∷ codes "status: 403"
    ∷ codes "status 403"
    ∷ codes "administrative rules"
    ∷ codes "not implemented"
    ∷ codes "unsupported"
    ∷ codes "distribution disabled"
    ∷ codes "distribution api"
    ∷ codes "proxyconnect"
    ∷ []

unfoldable pub is_fallback_eligible_daemon_error : Option Text → Bool
unfolding contains_any
is_fallback_eligible_daemon_error none = false
is_fallback_eligible_daemon_error (some error) =
    let lower = to_lower error in
    if contains_any lower blocked_words then false else contains_any lower indicators

abbrev pub get_method : Text
get_method = codes "GET"

abbrev pub head_method : Text
head_method = codes "HEAD"

abbrev pub manifest_types : Text
manifest_types =
    join
      (codes "application/vnd.oci.image.index.v1+json"
        ∷ codes "application/vnd.oci.image.manifest.v1+json"
        ∷ codes "application/vnd.docker.distribution.manifest.list.v2+json"
        ∷ codes "application/vnd.docker.distribution.manifest.v2+json"
        ∷ [])
      (codes ", ")

-- The credential, trimmed, where it is given and neither part is blank.
unfoldable pub usable_credential : Option Credentials → Option (Text × Text)
usable_credential none = none
usable_credential (some credential) =
    let username = trim_space credential.username in
    let token = trim_space credential.token in
    if is_empty username || is_empty token then none else some (username, token)

-- The first of the digest's headers that is not blank.
unfoldable pub first_header : (Text → Text) → List Text → Text
first_header header [] = []
first_header header (key ∷ keys) =
    let value = trim_space (header key) in
    if is_empty value then first_header header keys else value

unfoldable pub extract_digest_from_headers : (Text → Text) → Text
unfolding first_header
extract_digest_from_headers header =
    first_header header (codes "Docker-Content-Digest" ∷ codes "OCI-Content-Digest" ∷ [])

unfoldable pub required_digest : Result (Text → Text) → Result Text
unfolding extract_digest_from_headers
required_digest (err e) = err e
required_digest (ok header) =
    let digest = extract_digest_from_headers header in
    if is_empty digest then err (codes "no digest header found in response") else ok digest

unfoldable pub required_rate_limit : Result (Text → Text) → Result RateLimitInfo
unfolding extract_rate_limit_from_headers
required_rate_limit (err e) = err e
required_rate_limit (ok header) = extract_rate_limit_from_headers header

-- The headers of a response of status 200.
unfoldable pub accepted : (message : Text) → HttpResponse → Result (Text → Text)
unfolding decimal
accepted message response =
    if num_eq response.status_code 200
    then ok response.header
    else err (message ++ decimal response.status_code)

unfoldable pub check_realm : (realm : Text) → Result Url → Option Text
check_realm realm (err e) = some e
check_realm realm (ok u) =
    if not (to_lower u.scheme == codes "https")
    then some (codes "registry auth realm must use https: " ++ realm)
    else if is_empty (trim_space u.host)
    then some (codes "invalid registry auth realm host: " ++ realm)
    else none

module _ (lib : Libraries) (http : HttpLibraries) where
  -- The header that `SetBasicAuth` and `basicAuthHeaderForCredential` write.
  unfoldable pub basic_auth : (username token : Text) → Text
  basic_auth username token =
      codes "Basic " ++ http.encode_base64 (username ++ (codes ":" ++ token))

  unfoldable pub basic_auth_header_for_credential : Option Credentials → Option Text
  unfolding usable_credential basic_auth
  basic_auth_header_for_credential credential = elim (usable_credential credential) [
    | none ↦ none
    | some (username, token) ↦ some (basic_auth username token)
  ]

  unfoldable pub manifest_url : (registry_host repository tag : Text) → Text
  unfolding trim_char
  manifest_url registry_host repository tag =
      let host = RegistryHost.normalize lib registry_host in
      http.print_url (codes "https")
        (if host == codes "docker.io" then codes "registry-1.docker.io" else host)
        (codes "/v2/" ++ (trim_char b'/' repository ++ (codes "/manifests/" ++ trim_space tag)))

  -- The checks of `validateAuthRealm`; the error, if any.
  unfoldable pub validate_auth_realm : (realm : Text) → Option Text
  unfolding check_realm
  validate_auth_realm realm = check_realm realm (lib.parse_url realm)

  unfoldable pub token_url : (auth_url service repository : Text) → Text
  token_url auth_url service repository =
      let scope : Text × Text =
        (codes "scope", codes "repository:" ++ (repository ++ codes ":pull")) in
      http.set_query auth_url
        (if is_empty service then scope ∷ [] else (codes "service", service) ∷ scope ∷ [])

  -- `tokenResp` as the header of the next request.
  unfoldable pub bearer : Text × Text → Result Text
  bearer (token, access_token) =
      let first = trim_space token in
      let chosen = if is_empty first then trim_space access_token else first in
      if is_empty chosen
      then err (codes "token response did not contain a token")
      else ok (codes "Bearer " ++ chosen)

  unfoldable pub read_token : Result HttpResponse → Result Text
  unfolding bearer decimal
  read_token (err e) = err e
  read_token (ok response) =
      if num_eq response.status_code 200
      then elim (http.decode_token response.body) [ err e ↦ err e | ok tokens ↦ bearer tokens ]
      else err (codes "token request failed with status: " ++ decimal response.status_code)

  module _ (client : HttpClient) where
    -- `http.NewRequestWithContext` and `Do`.
    unfoldable pub send : HttpRequest → Action (Result HttpResponse)
    send request = elim (http.request_error request.method request.url) [
      | some e ↦ pure (err e)
      | none ↦ ask (Request.http_do request) (λ h. client h request)
    ]

    unfoldable pub manifest_request :
        (method registry_host repository tag : Text) → Option Text → Action (Result HttpResponse)
    unfolding send manifest_url
    manifest_request method registry_host repository tag auth_header = send (record {
      method = method;
      url = manifest_url registry_host repository tag;
      accept = some manifest_types;
      authorization = auth_header;
    })

    unfoldable pub fetch_registry_token :
        (auth_url service repository : Text) → Option Credentials → Action (Result Text)
    unfolding send basic_auth_header_for_credential token_url read_token
    fetch_registry_token auth_url service repository credential = elim (lib.parse_url auth_url) [
      | err e ↦ pure (err e)
      | ok u ↦
          let request : HttpRequest = record {
            method = get_method;
            url = token_url auth_url service repository;
            accept = none;
            authorization = basic_auth_header_for_credential credential;
          } in
          send request >>= λ answer. pure (read_token answer)
    ]

    module _ (method registry_host repository tag : Text) (credential : Option Credentials) where
      -- After the second answer.
      unfoldable pub authorized : Result HttpResponse → Result (Text → Text)
      unfolding accepted
      authorized (err e) = err e
      authorized (ok response) =
          accepted (codes "authenticated manifest request failed with status: ") response

      -- With the token.
      unfoldable pub retry : Result Text → Action (Result (Text → Text))
      unfolding manifest_request authorized
      retry (err e) = pure (err e)
      retry (ok token) =
          manifest_request method registry_host repository tag (some token) >>= λ answer.
          pure (authorized answer)

      unfoldable pub challenged : Challenge → Action (Result (Text → Text))
      unfolding validate_auth_realm fetch_registry_token retry
      challenged (realm, service) =
          if is_empty realm
          then pure (err (codes "no auth realm found"))
          else elim (validate_auth_realm realm) [
            | some e ↦ pure (err e)
            | none ↦ fetch_registry_token realm service repository credential >>= retry
          ]

      -- After the first answer.
      unfoldable pub answered : Result HttpResponse → Action (Result (Text → Text))
      unfolding challenged accepted parse_www_auth
      answered (err e) = pure (err e)
      answered (ok response) =
          let message = codes "manifest request failed with status: " in
          if not (num_eq response.status_code 401)
          then pure (accepted message response)
          else let challenge = response.header (codes "WWW-Authenticate") in
            if is_empty challenge
            then pure (accepted message response)
            else challenged (parse_www_auth challenge)

      unfoldable pub authorized_manifest_headers : Action (Result (Text → Text))
      unfolding manifest_request answered basic_auth_header_for_credential
      authorized_manifest_headers =
          manifest_request method registry_host repository tag
            (basic_auth_header_for_credential credential)
          >>= answered

  -- A client that is nil is the default client, the first parameter here.
  unfoldable pub client_or : HttpClient → Option HttpClient → HttpClient
  client_or default_client none = default_client
  client_or default_client (some client) = client

  module _ (default_client : HttpClient) (client : Option HttpClient) where
    unfoldable pub fetch_registry_rate_limit :
        (registry_host repository tag : Text) → Option Credentials → Action (Result RateLimitInfo)
    unfolding client_or authorized_manifest_headers required_rate_limit
    fetch_registry_rate_limit registry_host repository tag credential =
        authorized_manifest_headers (client_or default_client client) head_method registry_host
          repository tag credential
        >>= λ headers. pure (required_rate_limit headers)

    unfoldable pub fetch_digest :
        (registry_host repository tag : Text) → Option Credentials → Action (Result Text)
    unfolding client_or authorized_manifest_headers required_digest
    fetch_digest registry_host repository tag credential =
        authorized_manifest_headers (client_or default_client client) get_method registry_host
          repository tag credential
        >>= λ headers. pure (required_digest headers)
