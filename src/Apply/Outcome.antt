-- ===== src/Apply/Outcome.antt =====
-- What becomes of one plan.
use updater.Common.{◌≡◌, ◌⊎◌}
use updater.Libraries.{Libraries}
use updater.Types.{ResourceResult, skipped, failed, updated, up_to_date}
use updater.Digest
use updater.Hooks.Reading.{IsReading}
use updater.Apply.Plans.{UpdatePlan}
use updater.Apply.Run.{after_pull}
use updater.Ports.{Request}

-- The plan was left alone, and the item is skipped or has failed; or the image was pulled, the
-- plan is marked so, and the item is updated or was up to date after all.
abbrev pub IsOutcomeOf : UpdatePlan → ResourceResult × UpdatePlan → Type 0
IsOutcomeOf plan (item, after) =
    ((after ≡ plan) × ((item.status ≡ skipped) ⊎ (item.status ≡ failed)))
    ⊎ ((after ≡ after_pull plan) × ((item.status ≡ updated) ⊎ (item.status ≡ up_to_date)))

-- A request that reads, or that pulls the new image of the plan.
abbrev pub IsPlanRequest : UpdatePlan → Request → Type 0
IsPlanRequest plan r = IsReading r ⊎ (r ≡ Request.pull_image plan.new_ref)
