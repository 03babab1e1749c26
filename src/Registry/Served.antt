-- ===== src/Registry/Served.antt =====
-- The digest that a registry answers.
use updater.Common.{
  ◌≡◌, refl, ◌≢◌, ◌⊎◌, inl, inr, false, Option, List, [], ◌∷◌, arith, Bool-cases, In, Result, ok,
  err, Text, codes, is_empty, is_empty_iff, trim_space,
}
use updater.Libraries.{Libraries, HttpLibraries}
use updater.Ports.{HttpClient, Ensures, Ensures-pure, Ensures-bind}
use updater.Registry.Exchange.{
  Result-All, IsTrusted, IsServed, authorized_manifest_headers-IsTrusted,
}
use updater.Registry.Fetch.{
  Credentials, get_method, first_header, extract_digest_from_headers, required_digest, client_or,
  fetch_digest,
}

abbrev digest_headers : List Text
digest_headers = codes "Docker-Content-Digest" ∷ codes "OCI-Content-Digest" ∷ []

-- What one of the digest's headers holds, trimmed and not empty.
abbrev pub IsDigestOf : (Text → Text) → Text → Type 0
IsDigestOf header digest =
    (key : Text) × In key digest_headers × (digest ≡ trim_space (header key)) × (digest ≢ [])

first_header-cases :
    (header : Text → Text) (keys : List Text)
    → (first_header header keys ≡ [])
      ⊎ ((key : Text) × In key keys × (first_header header keys ≡ trim_space (header key)))
unfolding first_header
first_header-cases header [] = inl refl
first_header-cases header (key ∷ keys) = elim (Bool-cases (is_empty (trim_space (header key)))) [
  | inr e ↦ inr (key, inl refl, rw (e, first_header) refl)
  | inl e ↦
      rw (e, first_header)
        (elim (first_header-cases header keys) [
          | inl none_left ↦ inl none_left
          | inr (k, i, f) ↦ inr (k, inr i, f)
        ])
]

required_digest-IsDigestOf :
    (headers : Result (Text → Text)) (P : (Text → Text) → Type 0)
    → Result-All P headers
    → Result-All
        (λ digest. (header : Text → Text) × P header × IsDigestOf header digest)
        (required_digest headers)
unfolding required_digest extract_digest_from_headers
required_digest-IsDigestOf (err e) P p = tt
required_digest-IsDigestOf (ok header) P p =
    elim (Bool-cases (is_empty (first_header header digest_headers))) [
      | inl e ↦ rw (required_digest, e) tt
      | inr e ↦
          rw (required_digest, e)
            (
              header,
              p,
              (elim (first_header-cases header digest_headers) [
                | inl blank ↦ absurd (ne e blank)
                | inr (k, i, f) ↦ (k, i, f, ne e)
              ]),
            )
    ]
  where
    ne :
        is_empty (first_header header digest_headers) ≡ false
        → first_header header digest_headers ≢ []
    ne e f = ground (arith, is_empty_iff (first_header header digest_headers))

module _ (lib : Libraries) (http : HttpLibraries) (default_client : HttpClient) where
  -- A digest comes from the headers of a response of status 200 to a request for the manifest,
  -- from one of the two digest headers, trimmed, and it is not empty; all requests on the way are
  -- for the manifest or for a token at a secure realm.
  pub fetch_digest-IsServed :
      (client : Option HttpClient) (registry_host repository tag : Text)
      (credential : Option Credentials)
      → Ensures
          (IsTrusted lib http get_method registry_host repository tag credential)
          (Result-All (λ digest.
            (header : Text → Text) × IsServed lib http
              (client_or lib http default_client client)
              get_method
              registry_host
              repository
              tag
              credential
              header
            × IsDigestOf header digest))
          (fetch_digest lib http default_client client registry_host repository tag credential)
  unfolding fetch_digest
  fetch_digest-IsServed client registry_host repository tag credential =
      Ensures-bind
        (authorized_manifest_headers-IsTrusted lib http _ get_method registry_host repository tag
          credential)
        (λ headers p. Ensures-pure _ (required_digest-IsDigestOf headers _ p))
