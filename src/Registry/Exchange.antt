-- ===== src/Registry/Exchange.antt =====
-- The requests by which a manifest is asked for.
use updater.Common.{
  ◌≡◌, refl, ◌≢◌, ◌⊎◌, inl, inr, not, Option, none, some, [], ◌∷◌, ◌++◌, arith, num_eq,
  if◌then◌else◌, Bool-cases, Option-cases, Result, ok, err, Text, codes, eq_iff, is_empty,
  is_empty_iff, trim_space, to_lower,
}
use updater.Libraries.{Libraries, HttpLibraries, Url}
use updater.Ports.{
  HttpRequest, HttpResponse, HttpClient, Request, History, Ensures, Ensures-pure, Ensures-ask,
  Ensures-bind, Ensures-Option, Ensures-Result, Ensures-if, Ensures-map,
}
use updater.Registry.Challenge.{Challenge, parse_www_auth}
use updater.Registry.Fetch.{
  Credentials, check_realm, basic_auth_header_for_credential, manifest_url, validate_auth_realm,
  token_url, bearer, read_token, send, manifest_request, fetch_registry_token, authorized, retry,
  challenged, answered, authorized_manifest_headers, get_method, manifest_types, accepted,
}

-- A URL with scheme https and a host that is not blank.
abbrev pub IsSecureUrl : Result Url → Type 0
IsSecureUrl (err e) = ⊥
IsSecureUrl (ok u) = (to_lower u.scheme ≡ codes "https") × (trim_space u.host ≢ [])

abbrev pub Result-All : {A : Type 0} → (A → Type 0) → Result A → Type 0
Result-All P (err e) = Unit
Result-All P (ok a) = P a

check_realm-IsSecureUrl :
    (realm : Text) (parsed : Result Url) → check_realm realm parsed ≡ none → IsSecureUrl parsed
unfolding check_realm
check_realm-IsSecureUrl realm (err e) h = cc
check_realm-IsSecureUrl realm (ok u) h =
    ground (arith, eq_iff (to_lower u.scheme) (codes "https"), is_empty_iff (trim_space u.host))

module _ (lib : Libraries) (http : HttpLibraries) where
  abbrev pub IsSecure : Text → Type 0
  IsSecure realm = IsSecureUrl (lib.parse_url realm)

  abbrev pub IsBearer : Text → Type 0
  IsBearer token = (rest : Text) × (token ≡ codes "Bearer " ++ rest)

  module _ (method registry_host repository tag : Text) (credential : Option Credentials) where
    -- For the manifest, with the credential, a token, or neither.
    abbrev pub IsForManifest : HttpRequest → Type 0
    IsForManifest r =
        (r.method ≡ method)
        × (r.url ≡ manifest_url lib http registry_host repository tag)
        × ((r.authorization ≡ basic_auth_header_for_credential lib http credential)
            ⊎ ((token : Text) × (r.authorization ≡ some token) × IsBearer token))

    -- For a token, at a secure realm, with the credential.
    abbrev pub IsForToken : HttpRequest → Type 0
    IsForToken r =
        (realm : Text) × (service : Text) × IsSecure realm
        × (r.method ≡ get_method)
        × (r.url ≡ token_url lib http realm service repository)
        × (r.authorization ≡ basic_auth_header_for_credential lib http credential)

    abbrev pub IsTrusted : Request → Type 0
    IsTrusted (Request.http_do r) = IsForManifest r ⊎ IsForToken r
    IsTrusted _ = ⊥

  bearer-IsBearer : (tokens : Text × Text) → Result-All IsBearer (bearer lib http tokens)
  unfolding bearer is_empty
  bearer-IsBearer (token, access_token) = chosen _
    where
      chosen :
          (s : Text)
          → Result-All IsBearer (
              if is_empty s
              then err (codes "token response did not contain a token")
              else ok (codes "Bearer " ++ s))
      chosen [] = tt
      chosen (c ∷ s) = (c ∷ s, refl)

  read_token-IsBearer :
      (answer : Result HttpResponse) → Result-All IsBearer (read_token lib http answer)
  unfolding read_token
  read_token-IsBearer (err e) = tt
  read_token-IsBearer (ok r) = elim (Bool-cases (num_eq r.status_code 200)) [
    | inr e ↦ rw (e, read_token) tt
    | inl e ↦ rw (e, read_token) (decoded (http.decode_token r.body))
  ]
    where
      decoded :
          (o : Result (Text × Text))
          → Result-All IsBearer (elim o [ err e ↦ err e | ok tokens ↦ bearer lib http tokens ])
      decoded (err e) = tt
      decoded (ok tokens) = bearer-IsBearer tokens

  module _ (client : HttpClient) where
    IsAnswerOf : HttpRequest → HttpResponse → Type 0
    IsAnswerOf request response = (h : History) × (client h request ≡ ok response)

    answer-IsAnswerOf :
        (request : HttpRequest) (h : History) (answer : Result HttpResponse)
        → client h request ≡ answer
        → Result-All (IsAnswerOf request) answer
    unfolding IsAnswerOf
    answer-IsAnswerOf request h (err e) a = tt
    answer-IsAnswerOf request h (ok response) a = (h, a)

    send-Ensures :
        {P : Request → Type 0} (request : HttpRequest)
        → P (Request.http_do request)
        → Ensures P (Result-All (IsAnswerOf request)) (send lib http client request)
    unfolding send
    send-Ensures request p =
        Ensures-Option (http.request_error request.method request.url)
          (Ensures-ask _ _ p (λ h. answer-IsAnswerOf request h (client h request) refl))
          (λ e. Ensures-pure _ tt)

    module _ (method registry_host repository tag : Text) (credential : Option Credentials) where
      -- The headers of a response of status 200 to a request for the manifest.
      pub record IsServed (header : Text → Text) : Type 0 where
        pub history : History
        pub request : HttpRequest
        pub response : HttpResponse
        pub for_manifest : IsForManifest method registry_host repository tag credential request
        pub answers : client history request ≡ ok response
        pub status : response.status_code ≡ 200
        pub header_is : header ≡ response.header

      IsManifestAnswer : HttpResponse → Type 0
      IsManifestAnswer response =
          (request : HttpRequest) × IsForManifest method registry_host repository tag credential
            request
          × IsAnswerOf request response

      accepted-IsServed :
          (message : Text) (response : HttpResponse)
          → IsManifestAnswer response
          → Result-All IsServed (accepted message response)
      unfolding accepted IsManifestAnswer IsAnswerOf
      accepted-IsServed message response (request, for_manifest, (h, a)) =
          elim (Bool-cases (num_eq response.status_code 200)) [
            | inr e ↦ rw (e, accepted) tt
            | inl e ↦
                rw (e, accepted)
                  (record {
                    history = h;
                    request = request;
                    response = response;
                    for_manifest = for_manifest;
                    answers = a;
                    status = ground arith;
                    header_is = refl;
                  })
          ]

      to_manifest :
          (request : HttpRequest) (answer : Result HttpResponse)
          → IsForManifest method registry_host repository tag credential request
          → Result-All (IsAnswerOf request) answer
          → Result-All IsManifestAnswer answer
      unfolding IsManifestAnswer
      to_manifest request (err e) f a = tt
      to_manifest request (ok response) f a = (request, f, a)

      manifest_request-Ensures :
          (auth : Option Text)
          → (auth ≡ basic_auth_header_for_credential lib http credential)
            ⊎ ((token : Text) × (auth ≡ some token) × IsBearer token)
          → Ensures
              (IsTrusted method registry_host repository tag credential)
              (Result-All IsManifestAnswer)
              (manifest_request lib http client method registry_host repository tag auth)
      unfolding manifest_request
      manifest_request-Ensures auth a =
          let request : HttpRequest = record {
            method = method;
            url = manifest_url lib http registry_host repository tag;
            accept = some manifest_types;
            authorization = auth;
          } in
          let f : IsForManifest method registry_host repository tag credential request =
            (refl, refl, a) in
          Ensures-map (λ answer. to_manifest request answer f) (send-Ensures request (inl f))

      fetch_registry_token-Ensures :
          (realm service : Text)
          → IsSecure realm
          → Ensures
              (IsTrusted method registry_host repository tag credential)
              (Result-All IsBearer)
              (fetch_registry_token lib http client realm service repository credential)
      unfolding fetch_registry_token
      fetch_registry_token-Ensures realm service s =
          Ensures-Result (lib.parse_url realm) (λ e. Ensures-pure _ tt)
            (λ u.
              Ensures-bind (send-Ensures _ (inr (realm, service, s, refl, refl, refl)))
                (λ a q. Ensures-pure _ (read_token-IsBearer a)))

      authorized-IsServed :
          (answer : Result HttpResponse)
          → Result-All IsManifestAnswer answer
          → Result-All IsServed
              (authorized lib http client method registry_host repository tag credential answer)
      unfolding authorized
      authorized-IsServed (err e) a = tt
      authorized-IsServed (ok response) a = accepted-IsServed _ response a

      retry-Ensures :
          (token : Result Text)
          → Result-All IsBearer token
          → Ensures
              (IsTrusted method registry_host repository tag credential)
              (Result-All IsServed)
              (retry lib http client method registry_host repository tag credential token)
      unfolding retry
      retry-Ensures (err e) b = Ensures-pure _ tt
      retry-Ensures (ok token) b =
          Ensures-bind (manifest_request-Ensures (some token) (inr (token, refl, b)))
            (λ a q. Ensures-pure _ (authorized-IsServed a q))

      challenged-Ensures :
          (challenge : Challenge)
          → Ensures
              (IsTrusted method registry_host repository tag credential)
              (Result-All IsServed)
              (challenged lib http client method registry_host repository tag credential challenge)
      unfolding challenged
      challenged-Ensures (realm, service) =
          Ensures-if (is_empty realm) (Ensures-pure _ tt)
            (elim (Option-cases (validate_auth_realm lib http realm)) [
              | inr (e, f) ↦ rw f (Ensures-pure _ tt)
              | inl f ↦
                  let secure =
                    check_realm-IsSecureUrl realm (lib.parse_url realm)
                      (unfold validate_auth_realm in f) in
                  rw f (
                    Ensures-bind (fetch_registry_token-Ensures realm service secure)
                      (λ token b. retry-Ensures token b))
            ])

      answered-Ensures :
          (answer : Result HttpResponse)
          → Result-All IsManifestAnswer answer
          → Ensures
              (IsTrusted method registry_host repository tag credential)
              (Result-All IsServed)
              (answered lib http client method registry_host repository tag credential answer)
      unfolding answered
      answered-Ensures (err e) a = Ensures-pure _ tt
      answered-Ensures (ok r) a =
          let plain = accepted-IsServed (codes "manifest request failed with status: ") r a in
          Ensures-if (not (num_eq r.status_code 401)) (Ensures-pure _ plain) (
            Ensures-if (is_empty (r.header (codes "WWW-Authenticate"))) (Ensures-pure _ plain)
              (challenged-Ensures (parse_www_auth (r.header (codes "WWW-Authenticate")))))

      -- Every request is either for the manifest, at the registry's URL of scheme https, with the
      -- credential, a bearer token or no authorization, or for a token: that goes to a realm
      -- with scheme https and a host that is not blank, whatever realm the registry names. The
      -- headers that come back, if any, are those of a response of status 200 to a request for
      -- the manifest.
      pub authorized_manifest_headers-IsTrusted :
          Ensures (IsTrusted method registry_host repository tag credential) (Result-All IsServed) (
            authorized_manifest_headers lib http client method registry_host repository tag
              credential)
      unfolding authorized_manifest_headers
      authorized_manifest_headers-IsTrusted =
          Ensures-bind (manifest_request-Ensures _ (inl refl)) answered-Ensures
