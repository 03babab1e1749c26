-- ===== src/Registry/Bounds.antt =====
-- How many requests a manifest takes.
use updater.Common.{
  ℕ, ◌+◌, ◌≤◌, inl, inr, Option, arith, num_eq, Bool-cases, Option-cases, length, Result, ok, err,
  Text, codes, is_empty,
}
use updater.Libraries.{Libraries, HttpLibraries, Url}
use updater.Ports.{HttpRequest, HttpResponse, HttpClient, History, Action, pure, ◌>>=◌}
use updater.Registry.Challenge.{Challenge}
use updater.Registry.Fetch.{
  Credentials, validate_auth_realm, send, manifest_request, fetch_registry_token, read_token, retry,
  challenged, answered, authorized_manifest_headers,
}

-- The code makes at most `n` requests.
pub record MakesAtMost {A : Type 0} (n : ℕ) (m : Action A) : Type 0 where
  pub at : (h : History) → length (m h).1 ≤ n + length h

MakesAtMost-pure : {A : Type 0} (n : ℕ) (a : A) → MakesAtMost n (pure a)
MakesAtMost-pure n a = record { at = λ h. omega arith }

MakesAtMost-bind :
    {A B : Type 0} {m : Action A} {f : A → Action B} (k n : ℕ)
    → MakesAtMost k m
    → ((a : A) → MakesAtMost n (f a))
    → MakesAtMost (k + n) (m >>= f)
unfolding ◌>>=◌
MakesAtMost-bind {m} {f} k n p q = record {
  at = λ h. omega (arith, p.at h, (q (m h).0).at (m h).1);
}

module _ (lib : Libraries) (http : HttpLibraries) (client : HttpClient) where
  send-MakesAtMost : (request : HttpRequest) → MakesAtMost 1 (send lib http client request)
  unfolding send
  send-MakesAtMost request = elim (Option-cases (http.request_error request.method request.url)) [
    | inl e ↦ rw (send, e) (record { at = λ h. omega arith })
    | inr (_, e) ↦ rw (send, e) (record { at = λ h. omega arith })
  ]

  fetch_registry_token-MakesAtMost :
      (realm service repository : Text) (credential : Option Credentials)
      → MakesAtMost 1 (fetch_registry_token lib http client realm service repository credential)
  unfolding fetch_registry_token
  fetch_registry_token-MakesAtMost realm service repository credential =
      parsed (lib.parse_url realm) _
    where
      parsed :
          (p : Result Url) (request : HttpRequest)
          → MakesAtMost 1 (elim p [
            | err e ↦ pure (err e)
            | ok u ↦ send lib http client request >>= λ answer. pure (read_token lib http answer)
          ])
      parsed (err e) request = MakesAtMost-pure 1 _
      parsed (ok u) request =
          MakesAtMost-bind 1 0 (send-MakesAtMost request) (λ a. MakesAtMost-pure 0 _)

  module _ (method registry_host repository tag : Text) (credential : Option Credentials) where
    retry-MakesAtMost :
        (token : Result Text)
        → MakesAtMost 1 (retry lib http client method registry_host repository tag credential token)
    unfolding retry manifest_request
    retry-MakesAtMost (err e) = MakesAtMost-pure 1 _
    retry-MakesAtMost (ok token) =
        MakesAtMost-bind 1 0 (send-MakesAtMost _) (λ a. MakesAtMost-pure 0 _)

    challenged-MakesAtMost :
        (challenge : Challenge)
        → MakesAtMost 2
            (challenged lib http client method registry_host repository tag credential challenge)
    unfolding challenged
    challenged-MakesAtMost (realm, service) = elim (Bool-cases (is_empty realm)) [
      | inl e ↦ rw (challenged, e) (MakesAtMost-pure 2 _)
      | inr e ↦ elim (Option-cases (validate_auth_realm lib http realm)) [
        | inr (_, f) ↦ rw (challenged, e, f) (MakesAtMost-pure 2 _)
        | inl f ↦
            rw (challenged, e, f)
              (MakesAtMost-bind 1 1
                (fetch_registry_token-MakesAtMost realm service repository credential)
                retry-MakesAtMost)
      ]
    ]

    answered-MakesAtMost :
        (answer : Result HttpResponse)
        → MakesAtMost 2
            (answered lib http client method registry_host repository tag credential answer)
    unfolding answered
    answered-MakesAtMost (err e) = MakesAtMost-pure 2 _
    answered-MakesAtMost (ok r) = elim (Bool-cases (num_eq r.status_code 401)) [
      | inr e ↦ rw (answered, e) (MakesAtMost-pure 2 _)
      | inl e ↦ elim (Bool-cases (is_empty (r.header (codes "WWW-Authenticate")))) [
        | inl f ↦ rw (answered, e, f) (MakesAtMost-pure 2 _)
        | inr f ↦ rw (answered, e, f) (challenged-MakesAtMost _)
      ]
    ]

    -- However often the registry answers 401, at most three requests are made.
    pub authorized_manifest_headers-MakesAtMost :
        MakesAtMost 3 (
          authorized_manifest_headers lib http client method registry_host repository tag
            credential)
    unfolding authorized_manifest_headers manifest_request
    authorized_manifest_headers-MakesAtMost =
        MakesAtMost-bind 1 2 (send-MakesAtMost _) answered-MakesAtMost
