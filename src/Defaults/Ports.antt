-- ===== src/Defaults/Ports.antt =====
-- The default image puller and the default digest resolver.
use updater.Common.{Option, none, some, List, [], ◌∷◌, ◌++◌, Result, ok, err, Text, codes}
use updater.Libraries.{Libraries, HttpLibraries}
use updater.Refs.{Reference, normalize_reference}
use updater.Ports.{Request, History, HttpClient, Action, pure, ask, ◌>>=◌}
use updater.Registry.Fetch.{Credentials, fetch_digest}
use updater.Defaults.Auth.{
  DockerConfig, ImagePullOptions, default_image_pull_options, default_digest_credentials,
}

-- A writer of progress: the error, if any, of writing a chunk after the chunks before, of a
-- message and of the end of a line.
pub record ProgressWriter : Type 0 where
  pub marshal_write : (written : List Text) (message : Text) → Option Text
  pub write_string : (written : List Text) (chunk : Text) → Option Text

abbrev pub line_end : Text
line_end = codes "\n"

-- The error, if any, of one message, and what was written so far.
unfoldable pub write_message : ProgressWriter → List Text → Text → Option Text × List Text
write_message writer written message = elim (writer.marshal_write written message) [
  | some e ↦ (some (codes "write pull progress: " ++ e), written)
  | none ↦
      let written' = written ++ message ∷ [] in
      elim (writer.write_string written' line_end) [
        | some e ↦ (some (codes "terminate pull progress: " ++ e), written')
        | none ↦ (none, written' ++ line_end ∷ [])
      ]
]

-- The loop over the messages of a pull, each a message or an error that ends it.
unfoldable pub forward_messages :
    Option ProgressWriter → List Text → List (Result Text) → Option Text × List Text
unfolding write_message
forward_messages progress written [] = (none, written)
forward_messages progress written (err e ∷ messages) = (some e, written)
forward_messages none written (ok message ∷ messages) = forward_messages none written messages
forward_messages (some writer) written (ok message ∷ messages) =
    let (error, written') = write_message writer written message in
    let rest = forward_messages (some writer) written' messages in
    elim error [ some e ↦ (some e, written') | none ↦ rest ]

-- What `ImagePull` of a Docker client answers: the messages of its response.
abbrev pub ImagePull : Type 0
ImagePull = History → (ref : Text) → ImagePullOptions → Result (List (Result Text))

module _ (lib : Libraries) (docker : DockerConfig) where
  unfoldable pub pulled :
      Option ProgressWriter → Result (List (Result Text)) → Option Text × List Text
  unfolding forward_messages
  pulled progress (err e) = (some e, [])
  pulled progress (ok messages) = forward_messages progress [] messages

  unfoldable pub pull_connected :
      (image_ref : Text)
      → Option ProgressWriter
      → Result ImagePull
      → Action (Option Text × List Text)
  unfolding default_image_pull_options pulled
  pull_connected image_ref progress (err e) = pure (some (codes "docker connect: " ++ e), [])
  pull_connected image_ref progress (ok image_pull) =
      elim (default_image_pull_options lib docker image_ref) [
        | err e ↦ pure (some (codes "registry auth: " ++ e), [])
        | ok options ↦
            ask (Request.image_pull image_ref options.registry_auth)
              (λ h. image_pull h image_ref options)
            >>= λ answer. pure (pulled progress answer)
      ]

  -- The error, if any, and what was written.
  unfoldable pub pull_image :
      (provider : History → Result ImagePull) (image_ref : Text)
      → Option ProgressWriter
      → Action (Option Text × List Text)
  unfolding pull_connected
  pull_image provider image_ref progress =
      ask Request.docker_client provider >>= pull_connected image_ref progress

  -- `NewImagePuller`: a provider that is nil is a new one, the first argument.
  unfoldable pub new_image_puller :
      (new_provider : History → Result ImagePull)
      → Option (History → Result ImagePull)
      → Text
      → Option ProgressWriter
      → Action (Option Text × List Text)
  unfolding pull_image
  new_image_puller new_provider none = pull_image new_provider
  new_image_puller new_provider (some provider) = pull_image provider

  module _ (http : HttpLibraries) (default_client : HttpClient) (client : Option HttpClient) where
    unfoldable pub digest_with : Reference → Result (Option Credentials) → Action (Result Text)
    unfolding fetch_digest
    digest_with parsed (err e) = pure (err (codes "registry auth: " ++ e))
    digest_with parsed (ok credential) =
        fetch_digest lib http default_client client parsed.registry_host parsed.repository
          parsed.tag credential

    unfoldable pub image_digest : (image_ref : Text) → Action (Result Text)
    unfolding digest_with normalize_reference default_digest_credentials
    image_digest image_ref = elim (normalize_reference lib image_ref) [
      | err e ↦ pure (err e)
      | ok parsed ↦ digest_with parsed (default_digest_credentials lib docker image_ref)
    ]

  -- `NewRegistryDigestResolver`.
  unfoldable pub new_registry_digest_resolver :
      HttpLibraries → (default_client : HttpClient) → Text → Action (Result Text)
  unfolding image_digest
  new_registry_digest_resolver http default_client = image_digest http default_client none
