-- ===== src/Types/Record.antt =====
-- The references that a pending record stands for.
use updater.Common.{
  ◌≡◌, ◌≢◌, ◌⊎◌, inl, inr, true, Option, none, some, [], ◌++◌, arith, Bool-cases, Option-cases,
  Text, codes, is_empty, is_empty_iff, trim_space,
}
use updater.Types.{ImageUpdateRecord, is_tag_update, image_ref, known_version, new_image_ref}

known_version_ne :
    (latest : Option Text) {version : Text} → known_version latest ≡ some version → version ≢ []
unfolding known_version
known_version_ne none h e = cc
known_version_ne (some v) {version} h e = ground (arith, is_empty_iff (trim_space v))

-- A tag update to a known version: the version is not blank.
abbrev pub IsVersionChange : ImageUpdateRecord → Text → Type 0
IsVersionChange i version =
    (is_tag_update i ≡ true) × (known_version i.latest_version ≡ some version) × (version ≢ [])

image_ref_blank :
    (i : ImageUpdateRecord) → is_empty (trim_space i.repository) ≡ true → image_ref i ≡ []
unfolding image_ref
image_ref_blank i blank = rw (blank, image_ref)

-- Only a tag update to a version that is not blank changes the reference, and it keeps the
-- repository; every other record is pulled under the reference that it stands for now. A record
-- with a blank repository has no reference.
pub new_image_ref_cases :
    (i : ImageUpdateRecord)
    → ((trim_space i.repository ≡ []) × (new_image_ref i ≡ []) × (image_ref i ≡ []))
      ⊎ (((version : Text) × IsVersionChange i version
            × (new_image_ref i ≡ trim_space i.repository ++ (codes ":" ++ version)))
          ⊎ (((version : Text) → ¬ IsVersionChange i version) × (new_image_ref i ≡ image_ref i)))
unfolding new_image_ref
new_image_ref_cases i = elim (Bool-cases (is_empty (trim_space i.repository))) [
  | inl blank ↦ inl ((is_empty_iff _).0 blank, rw (blank, new_image_ref), image_ref_blank i blank)
  | inr named ↦ elim (Bool-cases (is_tag_update i)) [
    | inr plain ↦
        inr (inr (λ version (t, _, _). absurd (ground arith), rw (named, plain, new_image_ref)))
    | inl tagged ↦ elim (Option-cases (known_version i.latest_version)) [
      | inl unknown ↦ inr (
          inr (
            λ version (_, v, _). absurd (ground arith),
            rw (named, tagged, unknown, new_image_ref),
          ))
      | inr (version, known) ↦ inr (
          inl (
            version,
            (tagged, known, known_version_ne i.latest_version known),
            rw (named, tagged, known, new_image_ref),
          ))
    ]
  ]
]
