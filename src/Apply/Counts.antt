-- ===== src/Apply/Counts.antt =====
-- The counters of a run of `ApplyPending`.
use updater.Common.{List, []}
use updater.Libraries.{Libraries}
use updater.Types.{ResourceResult, RunResult}
use updater.Ports.{Action, History}
use updater.Apply.Tally.{IsTally}

-- Whatever has been requested before, the value satisfies `Q`.
record Always {A : Type 0} (Q : A → Type 0) (m : Action A) : Type 0 where
  always : (h : History) → Q (m h).0

-- The result so far has counted only plans.
abbrev IsPlansTally : RunResult → Type 0
IsPlansTally out = (ps : List ResourceResult) × IsTally ps [] out

abbrev IsRunTally : RunResult → Type 0
IsRunTally out = (ps cs : List ResourceResult) × IsTally ps cs out
