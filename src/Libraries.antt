-- ===== src/Libraries.antt =====
-- The parsers outside the repository whose answers the program uses, as parameters: those of
-- github.com/distribution/reference and github.com/opencontainers/go-digest, of Go's net/url and
-- net, and the two tests that Docker's API package makes of a network mode.
use updater.Common.{Bool, Option, List, Result, Text}

-- `reference.Named`: `Domain`, `Path`, and the tag of a `NamedTagged`.
pub record Named : Type 0 where
  pub domain : Text
  pub path : Text
  pub tag : Option Text

-- `url.URL`, with `EscapedPath()`.
pub record Url : Type 0 where
  pub scheme : Text
  pub host : Text
  pub hostname : Text
  pub escaped_path : Text
  pub raw_query : Text

pub record Libraries : Type 0 where
  -- `strconv.Quote`, with which the verb `%q` writes a text.
  pub quote : Text → Text
  pub parse_normalized_named : Text → Result Named
  -- `digest.Parse(s)` and the `String()` of its result.
  pub parse_digest : Text → Result Text
  pub parse_url : Text → Result Url
  pub is_ip : Text → Bool
  pub is_container : Text → Bool
  pub is_host : Text → Bool

-- The parts of Go's net/url, net/http, encoding/base64 and encoding/json with which a registry is
-- asked.
pub record HttpLibraries : Type 0 where
  -- `String()` of the URL with this scheme, host and path.
  pub print_url : (scheme host path : Text) → Text
  -- `String()` of the parsed URL after `Query`, a `Set` for each pair and `Encode`.
  pub set_query : (raw_url : Text) → List (Text × Text) → Text
  -- The error of `NewRequestWithContext`.
  pub request_error : (method url : Text) → Option Text
  pub encode_base64 : Text → Text
  -- `json.UnmarshalRead` into the fields `token` and `access_token`.
  pub decode_token : (body : Text) → Result (Text × Text)
