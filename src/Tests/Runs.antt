-- ===== src/Tests/Runs.antt =====
-- The theorems on whole runs at concrete inputs.
use updater.Common.{
  ◌≡◌, refl, ◌≢◌, ◌⊎◌, inl, inr, true, false, none, some, List, [], ◌∷◌, In, All, Result, ok, Text,
  codes, trim_space, lookup, text_functions,
}
use updater.Types.{Options}
use updater.Compose.{project_label}
use updater.Results.{labels_from_inspect}
use updater.LabelPolicy
use updater.LabelPolicy.{default_label_policy}
use updater.RegistryHost
use updater.RegistryHost.{before_slash, strip_scheme}
use updater.Refs.{
  normalize_image_update_ref, is_digest_pinned_reference, pullable_image_ref,
  is_mutable_pullable_ref, is_image_id_like_reference, normalize_reference,
}
use updater.DigestCheck.{Checker, ids_for_ref, ids_or_none, get_image_ids_for_ref}
use updater.DigestCheck.Cache.{looked_up, ids_for_ref_again}
use updater.Docker.{Summary}
use updater.Match.{verify_compose_service_updated_image, listed_image_id}
use updater.Match.Verify.{IsReplaced, verify_compose_service-IsReplaced}
use updater.Hooks.Reading.{IsReading}
use updater.Container.{update_container}
use updater.Container.DryRun.{update_container-IsReading}
use updater.Apply.{UpdatePlan, apply_pending}
use updater.Apply.DryRun.{apply_pending-IsReading}
use updater.Hooks.{docker_client, is_self_update_candidate}
use updater.Ports.{History, Request, ◌>>=◌, ◌>>◌}
use updater.Tests.Data.{lib, docker, config, web_record, summary}

abbrev dry_options : Options
dry_options = record { force = true; dry_run = true }

-- The client is the first thing that is asked for.
client_asked_for_container :
    In Request.docker_client (update_container lib config (codes "web") dry_options []).1
unfolding update_container docker_client is_self_update_candidate text_functions ◌>>=◌ ◌>>◌
    project_label labels_from_inspect LabelPolicy.is_update_disabled default_label_policy
    LabelPolicy.is_swarm_task normalize_image_update_ref is_digest_pinned_reference
    pullable_image_ref is_mutable_pullable_ref is_image_id_like_reference normalize_reference
    RegistryHost.normalize before_slash strip_scheme
client_asked_for_container = inr (inr (inr (inr (inl refl))))

update_container-IsReading_example : In Request.docker_client [] ⊎ IsReading Request.docker_client
update_container-IsReading_example =
    update_container-IsReading lib config (codes "web") true [] Request.docker_client
      client_asked_for_container

records_asked : In Request.pending_image_updates (apply_pending lib config dry_options []).1
unfolding apply_pending ◌>>=◌
records_asked = inl refl

apply_pending-IsReading_example :
    In Request.pending_image_updates [] ⊎ IsReading Request.pending_image_updates
apply_pending-IsReading_example =
    apply_pending-IsReading lib config true [] Request.pending_image_updates records_asked

abbrev web_plan : UpdatePlan
web_plan = record {
  record_ = web_record;
  old_ref = codes "web:1";
  new_ref = codes "web:2";
  old_ids = [];
  pulled = false;
  restart_failed = false;
}

abbrev checker : Checker
checker = record { docker_client = some docker; digest_resolver = none }

abbrev options : Options
options = record { force = false; dry_run = false }

abbrev other_lookups : List (Text × History)
other_lookups = (codes "db:1", []) ∷ (codes "web:1", Request.info ∷ []) ∷ []

ids_for_ref_again_example :
    (lookup {V = List Text} [] (codes "web:2") ≡ none
      → ((ids_for_ref lib checker [] (codes "web:2") []).0.0
          ≡ ids_or_none lib (get_image_ids_for_ref lib checker (codes "web:2") []).0)
        × ((ids_for_ref lib checker [] (codes "web:2") []).1
            ≡ (get_image_ids_for_ref lib checker (codes "web:2") []).1))
    × (ids_for_ref lib checker
          (looked_up lib checker (ids_for_ref lib checker [] (codes "web:2") []).0.1 other_lookups)
          (codes "web:2")
          []
        ≡ (
          (
            (ids_for_ref lib checker [] (codes "web:2") []).0.0,
            looked_up lib checker (ids_for_ref lib checker [] (codes "web:2") []).0.1 other_lookups,
          ),
          [],
        ))
ids_for_ref_again_example = ids_for_ref_again lib checker [] (codes "web:2") [] other_lookups []

abbrev listed_now : Result (List Summary)
listed_now = ok (summary (codes "web") (codes "web:1") ∷ [])

not_blank : trim_space (codes "web") ≢ []
unfolding text_functions
not_blank e = cc

old_not_blank : trim_space (codes "sha256:9") ≢ []
unfolding text_functions
old_not_blank e = cc

service_verified :
    (verify_compose_service_updated_image
      (some docker)
      (codes "web")
      (codes "web")
      (codes "sha256:9")
      []).0
    ≡ none
unfolding verify_compose_service_updated_image text_functions ◌>>=◌ listed_image_id
service_verified = refl

verify_compose_service-IsReplaced_example :
    (c : Summary) × (cs : List Summary) × (listed_now ≡ ok (c ∷ cs))
    × All (IsReplaced docker (trim_space (codes "sha256:9"))) (c ∷ cs)
verify_compose_service-IsReplaced_example =
    verify_compose_service-IsReplaced docker (codes "web") (codes "web") (codes "sha256:9") []
      listed_now not_blank not_blank old_not_blank refl service_verified
