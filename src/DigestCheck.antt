-- ===== src/DigestCheck.antt =====
-- internal/digestcheck/digestcheck.go: local image digests against those of a registry. Debug logs
-- are left out, and the checker itself, which every caller makes, is never nil.
pub mod Cache
use updater.Common.{
  ℕ, zero, suc, ◌+◌, ◌-◌, ◌*◌, ◌≤◌, ◌<◌, ◌≡◌, refl, sym, ap, ◌∙◌, subst, ◌≢◌, ◌↔◌, ◌⊎◌, inl, inr,
  Bool, true, false, not, ◌&&◌, ◌||◌, Option, none, some, List, [], ◌∷◌, ◌++◌, map, arith, ltb, leb,
  num_eq, if◌then◌else◌, ltb→lt, leb→le, num_eq_iff, Bool-cases, Option-cases, length, get_elem?,
  set, take, drop, last?, length-append, In, All, Distinct, Includes, In-append_left,
  In-append_right, In-append_cases, In-middle, All-append, All-In, All-of_In, All-map,
  Distinct-append, Result, ok, err, Text, codes, ◌==◌, eq_iff, eq_refl, is_empty, is_empty_iff,
  is_space, trim_left, trim_right, trim_left, trim_right, trim_space, to_lower, to_upper, fold_case,
  equal_fold, has_prefix, trim_prefix_of, trim_prefix, trim_suffix, contains, cut, before_sep,
  split, join, text_lt, trim_space_idem, has_prefix_iff, Map, lookup, insert, delete, elem,
  lookup-insert, lookup-delete, elem_iff, not-In_of_elem, text_functions, sort_texts, sort_texts-In,
  sort_texts-Distinct,
}
use updater.Libraries.{Libraries}
use updater.Docker.{ImageInspect, ImageSummary}
use updater.Ports.{Request, History, DockerClient, Action, pure, ask, ◌>>=◌}
use updater.Digest
use updater.Refs.{normalize_image_update_ref}

pub record Checker : Type 0 where
  pub docker_client : Option DockerClient
  pub digest_resolver : Option (History → Text → Result Text)

pub record CheckResult : Type 0 where
  pub needs_update : Bool
  pub local_digest_found : Text
  pub remote_digest : Text
  pub error : Option Text
  pub checked_via_api : Bool

abbrev no_check : CheckResult
no_check = record {
  needs_update = false;
  local_digest_found = [];
  remote_digest = [];
  error = none;
  checked_via_api = false;
}

abbrev client_unavailable : Text
client_unavailable = codes "docker client unavailable"

abbrev inspect_image : DockerClient → Text → Action (Result ImageInspect)
inspect_image docker ref = ask (Request.image_inspect ref) (λ h. docker.image_inspect h ref)

module _ (lib : Libraries) where
  -- The first repository digest that parses.
  unfoldable pub first_digest : List Text → Option Text
  first_digest [] = none
  first_digest (repo_digest ∷ repo_digests) = elim (Digest.from_reference_suffix lib repo_digest) [
    | none ↦ first_digest repo_digests
    | some normalized ↦ some normalized
  ]

  unfoldable pub local_digest : DockerClient → Text → Action (Result Text)
  local_digest docker image_ref = do
    inspected ← inspect_image docker image_ref
    elim inspected [
      | err e ↦ pure (err (codes "image not found locally: " ++ e))
      | ok inspect ↦ elim (first_digest inspect.repo_digests) [
        | some normalized ↦ pure (ok normalized)
        | none ↦
            if is_empty inspect.id
            then pure (err (codes "no digest available for image"))
            else pure (ok inspect.id)
      ]
    ]

  unfoldable pub compare_remote :
      Option (History → Text → Result Text) → Text → Text → Action CheckResult
  compare_remote none image_ref local = pure (record no_check {
    local_digest_found = local;
    error = some (codes "remote digest resolver unavailable");
  })
  compare_remote (some resolver) image_ref local = do
    resolved ← ask (Request.image_digest image_ref) (λ h. resolver h image_ref)
    elim resolved [
      | err e ↦ pure (record no_check { local_digest_found = local; error = some e })
      | ok remote ↦ pure (record no_check {
        local_digest_found = local;
        remote_digest = remote;
        checked_via_api = true;
        needs_update = not (local == remote);
      })
    ]

  unfoldable pub check_with_client :
      DockerClient → Option (History → Text → Result Text) → Text → Action CheckResult
  check_with_client docker resolver image_ref = do
    local ← local_digest docker image_ref
    elim local [
      | err e ↦ pure (record no_check { needs_update = true; error = some e })
      | ok digest ↦ compare_remote resolver image_ref digest
    ]

  unfoldable pub check_image_needs_update : Checker → Text → Action CheckResult
  check_image_needs_update c image_ref = elim (Digest.from_reference_suffix lib image_ref) [
    | some pinned ↦ pure (record no_check { local_digest_found = pinned; remote_digest = pinned })
    | none ↦ elim c.docker_client [
      | none ↦ pure (record no_check { error = some client_unavailable })
      | some docker ↦ check_with_client docker c.digest_resolver image_ref
    ]
  ]

  -- The loop over the repository digests: the last digest that was read, and whether it is the
  -- known one.
  unfoldable pub match_known : Text → Text → List Text → Text × Bool
  match_known known seen [] = (seen, false)
  match_known known seen (repo_digest ∷ repo_digests) =
      elim (Digest.from_reference_suffix lib repo_digest) [
        | none ↦ match_known known seen repo_digests
        | some local ↦
            let rest = match_known known local repo_digests in
            if local == known then (local, true) else rest
      ]

  unfoldable pub known_result : Text → ImageInspect → CheckResult
  known_result known inspect =
      let (local, matched) = match_known known [] inspect.repo_digests in
      let id = trim_space inspect.id in
      if matched
      then record no_check { remote_digest = known; local_digest_found = local }
      else record no_check {
        remote_digest = known;
        local_digest_found = if is_empty local && not (is_empty id) then id else local;
        needs_update = true;
      }

  unfoldable pub check_image_matches_known_digest : Checker → Text → Text → Action CheckResult
  check_image_matches_known_digest c image_ref known_digest =
      elim (Digest.normalize lib known_digest) [
        | err e ↦ pure (record no_check { error = some e })
        | ok known ↦ elim c.docker_client [
          | none ↦ pure (record no_check { remote_digest = known; error = some client_unavailable })
          | some docker ↦ do
            inspected ← inspect_image docker image_ref
            elim inspected [
              | err e ↦
                  pure
                    (record no_check { remote_digest = known; needs_update = true; error = some e })
              | ok inspect ↦ pure (known_result known inspect)
            ]
        ]
      ]

  unfoldable pub has_tag : Text → List Text → Bool
  has_tag normalized_ref [] = false
  has_tag normalized_ref (tag ∷ tags) =
      normalize_image_update_ref lib tag == normalized_ref || has_tag normalized_ref tags

  unfoldable pub tagged_ids : Text → List ImageSummary → List Text
  tagged_ids normalized_ref [] = []
  tagged_ids normalized_ref (img ∷ imgs) =
      let ids = tagged_ids normalized_ref imgs in
      if has_tag normalized_ref img.repo_tags then img.id ∷ ids else ids

  unfoldable pub list_ids : DockerClient → Text → Action (Result (List Text))
  list_ids docker ref = do
    listed ← ask Request.image_list docker.image_list
    elim listed [
      | err e ↦ pure (err e)
      | ok imgs ↦ pure (ok (tagged_ids (normalize_image_update_ref lib ref) imgs))
    ]

  unfoldable pub get_image_ids_for_ref : Checker → Text → Action (Result (List Text))
  get_image_ids_for_ref c ref = elim c.docker_client [
    | none ↦ pure (err client_unavailable)
    | some docker ↦ do
      inspected ← inspect_image docker ref
      elim inspected [
        | err e ↦ list_ids docker ref
        | ok inspect ↦
            if is_empty (trim_space inspect.id)
            then list_ids docker ref
            else pure (ok (inspect.id ∷ []))
      ]
  ]

  -- `ids, _ := …`: an error reads as no IDs.
  abbrev pub ids_or_none : Result (List Text) → List Text
  ids_or_none (err e) = []
  ids_or_none (ok ids) = ids

  -- `RefIDCache.IDsForRef`, with the cache before and after. Nothing is ever evicted.
  unfoldable pub ids_for_ref :
      Checker → Map (List Text) → Text → Action (List Text × Map (List Text))
  ids_for_ref c cache ref = elim (lookup cache ref) [
    | some ids ↦ pure (ids, cache)
    | none ↦ do
      found ← get_image_ids_for_ref c ref
      pure (ids_or_none found, insert cache ref (ids_or_none found))
  ]

unfoldable pub compare_with_pulled : Checker → Text → Text → Action (Result Bool)
compare_with_pulled c container_image_id new_image_ref = elim c.docker_client [
  | none ↦ pure (err client_unavailable)
  | some docker ↦ do
    inspected ← inspect_image docker new_image_ref
    elim inspected [
      | err e ↦ pure (err (codes "inspect new image: " ++ e))
      | ok inspect ↦ pure (ok (not (trim_space container_image_id == trim_space inspect.id)))
    ]
]
