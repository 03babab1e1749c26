-- ===== src/Results.antt =====
-- results.go: the counters of a run, and the results of single containers.
use updater.Common.{◌+◌, true, false, Option, none, some, [], num_eq, Text, Map}
use updater.Docker.{InspectResponse}
use updater.Types.{
  ResourceResult, RunResult, ResourceStatus, checked, updated, restarted, skipped, failed,
  up_to_date, update_available, container,
}

-- `newTimedResult`: the empty result, and what the deferred function makes of it at the end.
abbrev pub new_timed_result : RunResult
new_timed_result = record {
  success = false;
  checked_count = 0;
  updated_count = 0;
  restarted_count = 0;
  skipped_count = 0;
  failed_count = 0;
  items = [];
}

unfoldable pub finish_result : (error : Option Text) → RunResult → RunResult
finish_result none out = record out { success = num_eq out.failed_count 0 }
finish_result (some e) out = record out { success = false }

abbrev count_status : ResourceStatus → RunResult → RunResult
count_status updated out = record out { updated_count = out.updated_count + 1 }
count_status restarted out = record out { restarted_count = out.restarted_count + 1 }
count_status skipped out = record out { skipped_count = out.skipped_count + 1 }
count_status failed out = record out { failed_count = out.failed_count + 1 }
count_status checked out = record out { checked_count = out.checked_count + 1 }
count_status up_to_date out = record out { checked_count = out.checked_count + 1 }
count_status update_available out = record out { checked_count = out.checked_count + 1 }

unfoldable pub apply_result_count : RunResult → ResourceResult → RunResult
apply_result_count out item = count_status item.status out

unfoldable pub failed_container_result : Text → Text → Text → ResourceResult
failed_container_result id name message = record {
  resource_id = id;
  resource_name = name;
  resource_type = container;
  status = failed;
  update_available = false;
  update_applied = false;
  old_image = [];
  new_image = [];
  error = message;
}

unfoldable pub skipped_container_result : Text → Text → Text → ResourceResult
skipped_container_result id name message = record {
  resource_id = id;
  resource_name = name;
  resource_type = container;
  status = skipped;
  update_available = false;
  update_applied = false;
  old_image = [];
  new_image = [];
  error = message;
}

unfoldable pub updated_container_result : Text → Text → Text → Text → ResourceResult
updated_container_result id name old_image new_image = record {
  resource_id = id;
  resource_name = name;
  resource_type = container;
  status = updated;
  update_available = true;
  update_applied = true;
  old_image = old_image;
  new_image = new_image;
  error = [];
}

-- The labels of the config; a nil config has none.
unfoldable pub labels_from_inspect : InspectResponse → Map Text
labels_from_inspect inspect = elim inspect.config [ none ↦ [] | some config ↦ config.labels ]
