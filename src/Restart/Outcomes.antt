-- ===== src/Restart/Outcomes.antt =====
-- restart.go: results of restarts, and the notification of an update.
use updater.Common.{Bool, true, false, Option, none, some, [], Text}
use updater.Libraries.{Libraries}
use updater.Types.{ResourceResult, checked, updated, restarted, failed, container}
use updater.Refs.{normalize_image_update_ref}
use updater.Deps.{ContainerWithDeps}
use updater.Hooks.{notify}
use updater.Restart.Scan.{RestartPlan}
use updater.Ports.{Config, Action}

-- A copy of a result with the outcome of an update.
abbrev pub failing : ResourceResult → Text → ResourceResult
failing res e = record res { status = failed; error = e }

abbrev pub succeeding : ResourceResult → ResourceResult
succeeding res = record res { status = updated; update_available = true; update_applied = true }

abbrev pub restarting : ResourceResult → ResourceResult
restarting res = record res { status = restarted; update_applied = true }

module _ (lib : Libraries) (config : Config) where
  unfoldable pub standalone_restart_result : ContainerWithDeps → RestartPlan → ResourceResult
  standalone_restart_result candidate plan = record {
    resource_id = plan.cnt.id;
    resource_name = candidate.name;
    resource_type = container;
    status = checked;
    update_available = false;
    update_applied = false;
    old_image = plan.match_value;
    new_image = normalize_image_update_ref lib plan.new_ref;
    error = [];
  }

  unfoldable pub notify_updated : Text → Text → RestartPlan → Action (Option Text)
  notify_updated id name plan =
      notify config id name plan.new_ref plan.match_value
        (normalize_image_update_ref lib plan.new_ref)

  abbrev pub has_failed : ResourceResult → Bool
  has_failed r = elim r.status [ failed ↦ true | _ ↦ false ]

  abbrev pub result_or : Option ResourceResult → ResourceResult → ResourceResult
  result_or none fallback = fallback
  result_or (some r) fallback = r
