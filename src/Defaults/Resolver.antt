-- ===== src/Defaults/Resolver.antt =====
-- The default digest resolver, from the image's reference to the digest that is answered.
use updater.Common.{◌≡◌, refl, Option, Result, ok, err, Text}
use updater.Libraries.{Libraries, HttpLibraries}
use updater.Refs.{Reference, normalize_reference}
use updater.Ports.{Request, HttpClient, Ensures, Ensures-pure, Ensures-weaken, Ensures-map}
use updater.Registry.Fetch.{Credentials, client_or, get_method}
use updater.Registry.Exchange.{Result-All, IsTrusted, IsServed}
use updater.Registry.Served.{IsDigestOf, fetch_digest-IsServed}
use updater.Defaults.Auth.{DockerConfig}
use updater.Defaults.Credentials.{IsOwnEntry, default_digest_credentials-IsOwnEntry}
use updater.Defaults.Ports.{digest_with, image_digest}

module _ (lib : Libraries) (docker : DockerConfig) (http : HttpLibraries) (image_ref : Text) where
  -- For the reference's manifest at its registry, with the credentials of the configuration's
  -- entry for that registry or none.
  pub record IsOwnRequest (r : Request) : Type 0 where
    pub parsed : Reference
    pub credential : Option Credentials
    pub parsed_is : normalize_reference lib image_ref ≡ ok parsed
    pub own : IsOwnEntry lib docker image_ref credential
    pub trusted :
        IsTrusted lib http get_method parsed.registry_host parsed.repository parsed.tag credential r

  module _ (default_client : HttpClient) (client : Option HttpClient) where
    -- A digest of the reference's manifest.
    pub record IsOwnDigest (digest : Text) : Type 0 where
      pub parsed : Reference
      pub credential : Option Credentials
      pub parsed_is : normalize_reference lib image_ref ≡ ok parsed
      pub header : Text → Text
      pub served :
          IsServed lib http
            (client_or lib http default_client client)
            get_method
            parsed.registry_host
            parsed.repository
            parsed.tag
            credential
            header
      pub digest_is : IsDigestOf header digest

    digest_with-IsOwn :
        (parsed : Reference) (credential : Result (Option Credentials))
        → normalize_reference lib image_ref ≡ ok parsed
        → Result-All (IsOwnEntry lib docker image_ref) credential
        → Ensures IsOwnRequest
            (Result-All IsOwnDigest)
            (digest_with lib docker http default_client client parsed credential)
    unfolding digest_with
    digest_with-IsOwn parsed (err e) p o = Ensures-pure _ tt
    digest_with-IsOwn parsed (ok credential) p o =
        Ensures-weaken
          (λ r t. record {
            parsed = parsed;
            credential = credential;
            parsed_is = p;
            own = o;
            trusted = t;
          })
          (Ensures-map digests (
            fetch_digest-IsServed lib http default_client client parsed.registry_host
              parsed.repository parsed.tag credential))
      where
        digests :
            (a : Result Text)
            → Result-All
                (λ digest.
                  (header : Text → Text) × IsServed lib http
                    (client_or lib http default_client client)
                    get_method
                    parsed.registry_host
                    parsed.repository
                    parsed.tag
                    credential
                    header
                  × IsDigestOf header digest)
                a
            → Result-All IsOwnDigest a
        digests (err e) h = tt
        digests (ok digest) (header, served, d) = record {
          parsed = parsed;
          credential = credential;
          parsed_is = p;
          header = header;
          served = served;
          digest_is = d;
        }

    -- All requests are for the manifest of the reference at its own registry, or for a token at a
    -- secure realm, with no credentials but those of the configuration's entry for the image's
    -- registry; a digest that is answered is not empty and comes from the digest headers of a
    -- response of status 200 to a request for that manifest.
    pub image_digest-IsOwn :
        Ensures IsOwnRequest
          (Result-All IsOwnDigest)
          (image_digest lib docker http default_client client image_ref)
    unfolding image_digest
    image_digest-IsOwn = parsed_by (normalize_reference lib image_ref) refl
      where
        parsed_by :
            (parsed : Result Reference)
            → normalize_reference lib image_ref ≡ parsed
            → Ensures IsOwnRequest
                (Result-All IsOwnDigest)
                (image_digest lib docker http default_client client image_ref)
        parsed_by (err e) p = rw (image_digest, p) (Ensures-pure _ tt)
        parsed_by (ok parsed) p =
            rw (image_digest, p)
              (digest_with-IsOwn parsed _ p
                (default_digest_credentials-IsOwnEntry lib docker image_ref))
