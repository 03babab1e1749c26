-- ===== src/Tests/Restarts.antt =====
-- The theorems on restarts and on applied records at concrete inputs.
use updater.Common.{
  ◌≡◌, refl, ◌↔◌, ◌⊎◌, Bool, true, false, none, some, List, [], ◌∷◌, length, In, Text, codes,
  lookup, text_functions,
}
use updater.Types.{ResourceResult, ResourceStatus}
use updater.LabelPolicy.{default_label_policy}
use updater.Deps.{ContainerWithDeps, update_implicit_restart}
use updater.Restart.{
  RestartPlan, RestartScan, propagate_implicit_restarts, order_self_update_last,
  fallback_image_for_plan, execute_restart_plans, update_standalone_restart_candidates,
}
use updater.Restart.Closure.{IsPropagated, propagate_implicit_restarts-IsPropagated}
use updater.Restart.Explicit.{IsPlanFor, propagate_implicit_restarts-IsPlanFor}
use updater.Restart.Ordering.{Ascends, order_self_update_last-Ascends}
use updater.Restart.Last.{IsTriggering, execute_restart_plans-Phases, update_standalone-Phases}
use updater.Hooks.Reading.{IsNoTrigger, IsStopping, IsCreating}
use updater.Apply.{UpdatePlan, clear_applied_plan_records, mark_restart_failed_plans}
use updater.Apply.Clear.{IsDone, cleared_iff}
use updater.Ports.{Request, Phases}
use updater.Tests.Data.{lib, docker, config, store, summary, web_record, result_of}
use updater.Tests.Sorting.{web_and_db}

abbrev plan_for : Text → Text → Bool → RestartPlan
plan_for name new_ref explicit = record {
  cnt = summary name (codes "web:1");
  inspect = none;
  new_ref = new_ref;
  match_value = [];
  explicit = explicit;
  implicit = false;
}

-- The database restarts, and the web server depends on it.
abbrev scan : RestartScan
scan = record {
  plans_by_name =
      (codes "web", plan_for (codes "web") [] false)
      ∷ (codes "db", plan_for (codes "db") (codes "db:2") true)
      ∷ [];
  marked_for_restart = codes "db" ∷ [];
  containers = web_and_db;
}

propagate_implicit_restarts-IsPropagated_example :
    (after : RestartScan) × (propagate_implicit_restarts scan ≡ some after)
    × IsPropagated scan after
propagate_implicit_restarts-IsPropagated_example = propagate_implicit_restarts-IsPropagated scan

abbrev web_implied : RestartPlan
web_implied = record (plan_for (codes "web") (codes "web:1") false) {
  match_value = codes "dependency_restart";
  implicit = true;
}

abbrev scan_after : RestartScan
scan_after = record scan {
  plans_by_name =
      (codes "web", web_implied) ∷ (codes "db", plan_for (codes "db") (codes "db:2") true) ∷ [];
  marked_for_restart = codes "web" ∷ codes "db" ∷ [];
}

propagated : propagate_implicit_restarts scan ≡ some scan_after
unfolding propagate_implicit_restarts text_functions update_implicit_restart fallback_image_for_plan
propagated = refl

propagate_implicit_restarts-IsPlanFor_example :
    IsPlanFor
      (lookup scan.plans_by_name (codes "db"))
      (lookup scan_after.plans_by_name (codes "db"))
propagate_implicit_restarts-IsPlanFor_example =
    propagate_implicit_restarts-IsPlanFor scan scan_after (codes "db") propagated

order_self_update_last-Ascends_example :
    Ascends default_label_policy scan.plans_by_name
      (order_self_update_last web_and_db scan.plans_by_name default_label_policy)
    × (length (order_self_update_last web_and_db scan.plans_by_name default_label_policy) ≡ 2)
    × ((c : ContainerWithDeps)
        → In c (order_self_update_last web_and_db scan.plans_by_name default_label_policy)
          ↔ In c web_and_db)
order_self_update_last-Ascends_example =
    order_self_update_last-Ascends default_label_policy scan.plans_by_name web_and_db

abbrev web_plan : UpdatePlan
web_plan = record {
  record_ = web_record;
  old_ref = codes "web:1";
  new_ref = codes "web:2";
  old_ids = [];
  pulled = true;
  restart_failed = false;
}

abbrev failed_restart : List ResourceResult
failed_restart = result_of (codes "web:2") ResourceStatus.failed ∷ []

abbrev cleared_request : Request
cleared_request = Request.clear_image_update_record web_record

cleared_iff_example :
    In cleared_request
      (clear_applied_plan_records store
        (mark_restart_failed_plans lib (web_plan ∷ []) failed_restart)
        []).1
    ↔ (In cleared_request []
        ⊎ ((plan : UpdatePlan) × In plan (web_plan ∷ [])
            × IsDone lib failed_restart plan
            × (cleared_request ≡ Request.clear_image_update_record plan.record_)))
cleared_iff_example = cleared_iff lib store (web_plan ∷ []) failed_restart [] cleared_request

execute_restart_plans-Phases_example :
    Phases IsNoTrigger IsTriggering
      (execute_restart_plans lib config docker web_and_db scan.plans_by_name)
execute_restart_plans-Phases_example =
    execute_restart_plans-Phases lib config docker web_and_db scan.plans_by_name

update_standalone-Phases_example :
    Phases IsStopping IsCreating
      (update_standalone_restart_candidates lib config docker scan.plans_by_name web_and_db)
update_standalone-Phases_example =
    update_standalone-Phases lib config docker scan.plans_by_name web_and_db
