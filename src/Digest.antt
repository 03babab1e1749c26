-- ===== src/Digest.antt =====
-- digest/digest.go: the digest of a reference "name@digest".
use updater.Common.{Option, none, some, ◌++◌, Result, ok, err, Text, codes, trim_space, cut}
use updater.Libraries.{Libraries}

module _ (lib : Libraries) where
  unfoldable pub normalize : Text → Result Text
  normalize value = elim (lib.parse_digest (trim_space value)) [
    | err e ↦ err (codes "invalid OCI digest " ++ (lib.quote value ++ (codes ": " ++ e)))
    | ok parsed ↦ ok parsed
  ]

  unfoldable pub from_reference_suffix : Text → Option Text
  from_reference_suffix ref = elim (cut (trim_space ref) b'@') [
    | none ↦ none
    | some (before, digest_value) ↦ elim (normalize digest_value) [
      | err e ↦ none
      | ok normalized ↦ some normalized
    ]
  ]
