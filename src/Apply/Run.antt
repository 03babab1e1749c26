-- ===== src/Apply/Run.antt =====
-- apply.go: the plans are carried out one after the other, the containers restarted, and the
-- records of what was done cleared.
use updater.Common.{
  ◌+◌, Bool, true, false, not, ◌&&◌, ◌||◌, Option, none, some, List, [], ◌∷◌, ◌++◌, if◌then◌else◌,
  Result, ok, err, Text, codes, is_empty, Map, insert, elem,
}
use updater.Libraries.{Libraries}
use updater.Types.{
  Options, ResourceResult, RunResult, ResourceStatus, ImageUpdateRecord, checked, updated,
  restarted, skipped, failed, up_to_date, update_available, image,
}
use updater.Refs.{normalize_image_update_ref}
use updater.Results.{new_timed_result, finish_result, apply_result_count}
use updater.DigestCheck.{Checker, get_image_ids_for_ref}
use updater.Hooks.{
  docker_client, record_result, err_pending_store_required, err_image_puller_required,
}
use updater.Container.{Outcome, fail, finish}
use updater.Restart.{restart_containers_using_old_images}
use updater.Apply.Plans.{
  UpdatePlan, image_ids_overlap, plan_image_up_to_date, build_update_plans, used_images,
}
use updater.Ports.{Request, DockerClient, PendingStore, Config, Action, pure, ask, ◌>>=◌, ◌>>◌}

abbrev checked_item : UpdatePlan → ResourceResult
checked_item plan = record {
  resource_id = plan.old_ref;
  resource_name = plan.old_ref;
  resource_type = image;
  status = checked;
  update_available = false;
  update_applied = false;
  old_image = plan.old_ref;
  new_image = plan.new_ref;
  error = [];
}

abbrev pub with_status_error : ResourceStatus → Text → ResourceResult → ResourceResult
with_status_error s e item = record item { status = s; error = e }

abbrev updated_item : UpdatePlan → ResourceResult
updated_item plan = record (checked_item plan) {
  status = updated;
  update_applied = true;
  update_available = true;
}

abbrev pub after_pull : UpdatePlan → UpdatePlan
after_pull plan = record plan { pulled = true }

-- The loop's counts of one item.
abbrev count_item : ResourceStatus → RunResult → RunResult
count_item skipped out = record out { skipped_count = out.skipped_count + 1 }
count_item failed out = record out { failed_count = out.failed_count + 1 }
count_item updated out = record out { updated_count = out.updated_count + 1 }
count_item checked out = out
count_item restarted out = out
count_item up_to_date out = out
count_item update_available out = out

abbrev add_item : RunResult → ResourceResult → RunResult
add_item out item = record out { items = out.items ++ item ∷ [] }

unfoldable pub count_plan : RunResult → ResourceResult → RunResult
count_plan out item =
    add_item (count_item item.status (record out { checked_count = out.checked_count + 1 })) item

-- The two maps of what an updated plan replaces.
abbrev pub Replaced : Type 0
Replaced = Map Text × Map Text

unfoldable pub insert_ids : Map Text → List Text → Text → Map Text
insert_ids m [] ref = m
insert_ids m (id ∷ ids) ref = insert_ids (insert m id ref) ids ref

unfoldable pub replace : ResourceStatus → UpdatePlan → Replaced → Replaced
unfolding insert_ids
replace updated plan (ids, refs) =
    (insert_ids ids plan.old_ids plan.new_ref, insert refs plan.old_ref plan.new_ref)
replace checked plan m = m
replace restarted plan m = m
replace skipped plan m = m
replace failed plan m = m
replace up_to_date plan m = m
replace update_available plan m = m

module _ (lib : Libraries) where
  unfoldable pub restart_failed_image_refs : List ResourceResult → List Text
  restart_failed_image_refs [] = []
  restart_failed_image_refs (result ∷ results) =
      let new_ref = normalize_image_update_ref lib result.new_image in
      let rest = restart_failed_image_refs results in
      elim result.status [
        | checked ↦ rest
        | updated ↦ rest
        | restarted ↦ rest
        | skipped ↦ rest
        | failed ↦ if is_empty new_ref then rest else new_ref ∷ rest
        | up_to_date ↦ rest
        | update_available ↦ rest
      ]

  unfoldable pub mark_plans : List Text → List UpdatePlan → List UpdatePlan
  mark_plans failed_refs [] = []
  mark_plans failed_refs (plan ∷ plans) =
      let marked =
        if plan.pulled && elem (normalize_image_update_ref lib plan.new_ref) failed_refs
        then record plan { restart_failed = true }
        else plan in
      marked ∷ mark_plans failed_refs plans

  -- With no failed references nothing is marked.
  unfoldable pub mark_restart_failed_plans : List UpdatePlan → List ResourceResult → List UpdatePlan
  unfolding restart_failed_image_refs mark_plans
  mark_restart_failed_plans plans results = elim (restart_failed_image_refs results) [
    | [] ↦ plans
    | ref ∷ refs ↦ mark_plans (ref ∷ refs) plans
  ]

unfoldable pub clear_applied_plan_records : PendingStore → List UpdatePlan → Action (Unit {0})
clear_applied_plan_records store [] = pure tt
clear_applied_plan_records store (plan ∷ plans) =
    let rest = clear_applied_plan_records store plans in
    if not plan.pulled
    then rest
    else if plan.restart_failed
    then rest
    else ask (Request.clear_image_update_record plan.record_)
        (λ h. store.clear_image_update_record h plan.record_)
      >> rest

module _ (lib : Libraries) (config : Config) where
  -- What follows a successful pull.
  unfoldable pub after_pull_item : Checker → Options → UpdatePlan → Action ResourceResult
  after_pull_item checker opts plan =
      if opts.force
      then pure (updated_item plan)
      else get_image_ids_for_ref lib checker plan.new_ref >>= λ answer. elim answer [
        | err e ↦ pure (updated_item plan)
        | ok target_ids ↦
            if image_ids_overlap plan.old_ids target_ids
            then pure (
                with_status_error up_to_date (codes "image digest unchanged after pull")
                  (checked_item plan))
            else pure (updated_item plan)
      ]

  unfoldable pub pull_plan : Checker → Options → UpdatePlan → Action (ResourceResult × UpdatePlan)
  unfolding after_pull_item
  pull_plan checker opts plan = elim config.image_puller [
    | none ↦ pure (with_status_error failed err_image_puller_required (checked_item plan), plan)
    | some puller ↦ do
      pulled ← ask (Request.pull_image plan.new_ref) (λ h. puller h plan.new_ref)
      elim pulled [
        | some e ↦
            pure (with_status_error failed (codes "pull failed: " ++ e) (checked_item plan), plan)
        | none ↦ do item ← after_pull_item checker opts plan; pure (item, after_pull plan)
      ]
  ]

  unfoldable pub execute_update_plan :
      Checker → Options → UpdatePlan → Action (ResourceResult × UpdatePlan)
  unfolding pull_plan
  execute_update_plan checker opts plan =
      if opts.dry_run
      then pure (with_status_error skipped [] (checked_item plan), plan)
      else if opts.force
      then pull_plan checker opts plan
      else plan_image_up_to_date lib checker plan >>= λ current.
          if current
          then pure (
            with_status_error skipped (codes "image already up to date") (checked_item plan),
            plan,
          )
          else pull_plan checker opts plan

  -- The loop over the plans: the result so far, the plans as they are afterwards, and the maps.
  unfoldable pub execute_plans :
      Checker
      → Options
      → RunResult
      → Replaced
      → List UpdatePlan
      → Action (RunResult × List UpdatePlan × Replaced)
  unfolding execute_update_plan
  execute_plans checker opts out m [] = pure (out, [], m)
  execute_plans checker opts out m (plan ∷ plans) = do
    (item, plan') ← execute_update_plan checker opts plan
    record_result config item
    (out', plans', m') ←
        execute_plans checker opts (count_plan out item) (replace item.status plan m) plans
    pure (out', plan' ∷ plans', m')

  unfoldable pub fold_results : RunResult → List ResourceResult → Action RunResult
  fold_results out [] = pure out
  fold_results out (item ∷ items) =
      record_result config item >> fold_results (add_item (apply_result_count out item) item) items

  -- The result, the plans as they are afterwards, and the error of the restart.
  unfoldable pub restart_after_apply :
      RunResult → List UpdatePlan → Replaced → Action (RunResult × List UpdatePlan × Option Text)
  unfolding fold_results
  restart_after_apply out plans ([], []) = pure (out, plans, none)
  restart_after_apply out plans (ids, refs) = do
    (results, error) ← restart_containers_using_old_images lib config ids refs
    out' ← fold_results out results
    pure (out', mark_restart_failed_plans lib plans results, error)

  unfoldable pub apply_plans : PendingStore → Checker → Options → List UpdatePlan → Action Outcome
  unfolding execute_plans restart_after_apply
  apply_plans store checker opts plans = do
    (out, plans', m) ← execute_plans checker opts new_timed_result ([], []) plans
    (out', plans'', error) ← restart_after_apply out plans' m
    elim error [
      | some e ↦ pure (some (finish_result (some e) out'), some e)
      | none ↦ clear_applied_plan_records store plans'' >> pure (finish out')
    ]

  abbrev pub client_of : Result DockerClient → Option DockerClient
  client_of (err e) = none
  client_of (ok docker) = some docker

  abbrev pub is_some : {A : Type 0} → Option A → Bool
  is_some none = false
  is_some (some a) = true

  -- The part with the plans: the client that the digest checks use is asked for again.
  unfoldable pub apply_with_plans : PendingStore → Options → List UpdatePlan → Action Outcome
  unfolding apply_plans
  apply_with_plans store opts plans =
      let checker : Option DockerClient → Checker = λ docker. record {
        docker_client = docker;
        digest_resolver = config.registry_digest_resolver;
      } in
      if not opts.dry_run || is_some config.registry_digest_resolver
      then (docker_client config >>= λ client. elim client [
        | ok docker ↦ apply_plans store (checker (some docker)) opts plans
        | err e ↦
            if opts.dry_run
            then apply_plans store (checker none) opts plans
            else pure (fail (codes "docker connect: " ++ e))
      ])
      else apply_plans store (checker none) opts plans

  unfoldable pub apply_records :
      PendingStore → Options → List ImageUpdateRecord → List Text → Action Outcome
  unfolding apply_with_plans
  apply_records store opts records used = do
    client ← docker_client config
    plans ←
        build_update_plans lib (record { docker_client = client_of client; digest_resolver = none })
          used records
    elim plans [
      | [] ↦ pure (finish new_timed_result)
      | p ∷ ps ↦ apply_with_plans store opts (p ∷ ps)
    ]

  unfoldable pub apply_pending : Options → Action Outcome
  unfolding apply_records
  apply_pending opts = elim config.pending_store [
    | none ↦ pure (fail err_pending_store_required)
    | some store ↦ do
      answer ← ask Request.pending_image_updates store.pending_image_updates
      elim answer [
        | err e ↦ pure (fail (codes "query pending image updates: " ++ e))
        | ok [] ↦ pure (finish new_timed_result)
        | ok (r ∷ rs) ↦ do
          used ← used_images lib config
          elim used [
            | err e ↦ pure (fail (codes "collect used images: " ++ e))
            | ok [] ↦ pure (finish new_timed_result)
            | ok (u ∷ us) ↦ apply_records store opts (r ∷ rs) (u ∷ us)
          ]
      ]
  ]
