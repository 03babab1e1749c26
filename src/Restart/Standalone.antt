-- ===== src/Restart/Standalone.antt =====
-- restart.go: standalone containers are stopped in reverse order and created again in order.
use updater.Common.{
  false, Option, none, some, List, [], ◌∷◌, if◌then◌else◌, Text, Map, lookup, insert,
}
use mathlib.Core.List.{reverse}
use updater.Libraries.{Libraries}
use updater.Docker.{InspectResponse}
use updater.Types.{ResourceResult}
use updater.Deps.{ContainerWithDeps}
use updater.Hooks.{with_status}
use updater.Container.{stop_and_remove_standalone_container, create_start_or_rollback}
use updater.Restart.Scan.{RestartPlan}
use updater.Ports.{DockerClient, Config, Action, pure, ◌>>=◌, ◌>>◌}
use updater.Restart.Outcomes.{
  failing, succeeding, restarting, standalone_restart_result, notify_updated, has_failed, result_or,
}

module _ (lib : Libraries) (config : Config) where
  -- The plan of a candidate and its inspection, where it has both.
  unfoldable pub ready_plan :
      Map RestartPlan → ContainerWithDeps → Option (RestartPlan × InspectResponse)
  ready_plan plans candidate = elim (lookup plans candidate.name) [
    | none ↦ none
    | some plan ↦ elim plan.inspect [ none ↦ none | some inspect ↦ some (plan, inspect) ]
  ]

  -- The loop that stops and removes the candidates, over the reversed list.
  unfoldable pub stop_candidates :
      DockerClient
      → Map RestartPlan
      → Map ResourceResult
      → List ContainerWithDeps
      → Action (Map ResourceResult)
  unfolding ready_plan
  stop_candidates docker plans results [] = pure results
  stop_candidates docker plans results (c ∷ cs) = elim (ready_plan plans c) [
    | none ↦ stop_candidates docker plans results cs
    | some (plan, inspect) ↦ do
      failure ← stop_and_remove_standalone_container lib config docker plan.cnt inspect
      let result = standalone_restart_result lib config c plan
      elim failure [
        | none ↦ stop_candidates docker plans (insert results c.name result) cs
        | some e ↦ stop_candidates docker plans (insert results c.name (failing result e)) cs
      ]
  ]

  -- What becomes of a candidate that was stopped.
  unfoldable pub create_candidate :
      DockerClient
      → ContainerWithDeps
      → RestartPlan
      → InspectResponse
      → ResourceResult
      → Action ResourceResult
  create_candidate docker c plan inspect result = do
    failure ← create_start_or_rollback lib config docker plan.cnt inspect plan.new_ref
    elim failure [
      | some e ↦ pure (failing result e)
      | none ↦
          if plan.implicit
          then pure (restarting result)
          else (notify_updated lib config plan.cnt.id c.name plan >> pure (succeeding result))
    ]

  -- The loop that creates the candidates again, in order.
  unfoldable pub create_candidates :
      DockerClient
      → Map RestartPlan
      → Map ResourceResult
      → List ContainerWithDeps
      → Action (Map ResourceResult)
  unfolding ready_plan create_candidate
  create_candidates docker plans results [] = pure results
  create_candidates docker plans results (c ∷ cs) = elim (ready_plan plans c) [
    | none ↦ create_candidates docker plans results cs
    | some (plan, inspect) ↦
        let result =
          result_or lib config (lookup results c.name)
            (standalone_restart_result lib config c plan) in
        let kept = create_candidates docker plans (insert results c.name result) cs in
        let made = create_candidate docker c plan inspect result >>= λ result'.
        create_candidates docker plans (insert results c.name result') cs in
        if has_failed lib config result then kept else made
  ]

  unfoldable pub results_of : Map ResourceResult → List ContainerWithDeps → List ResourceResult
  results_of results [] = []
  results_of results (c ∷ cs) = elim (lookup results c.name) [
    | none ↦ results_of results cs
    | some r ↦ r ∷ results_of results cs
  ]

  -- The statuses begin in order and end in reverse.
  unfoldable pub with_statuses : {A : Type 0} → List Text → Action A → Action A
  with_statuses [] body = body
  with_statuses (id ∷ ids) body = with_status false id (with_statuses ids body)

  unfoldable pub planned_ids : Map RestartPlan → List ContainerWithDeps → List Text
  planned_ids plans [] = []
  planned_ids plans (c ∷ cs) = elim (lookup plans c.name) [
    | none ↦ planned_ids plans cs
    | some plan ↦ plan.cnt.id ∷ planned_ids plans cs
  ]

  unfoldable pub update_standalone_restart_candidates :
      DockerClient → Map RestartPlan → List ContainerWithDeps → Action (List ResourceResult)
  unfolding stop_candidates create_candidates results_of with_statuses planned_ids
  update_standalone_restart_candidates docker plans candidates =
      with_statuses (planned_ids plans candidates) (
        stop_candidates docker plans [] (reverse candidates) >>= λ stopped.
        create_candidates docker plans stopped candidates >>= λ results.
        pure (results_of results candidates))
