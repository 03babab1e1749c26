-- ===== src/Restart/Last.antt =====
-- The order of the requests of a restart run.
use updater.Common.{ℕ, false, List, [], ◌∷◌, Text, Map, lookup}
use mathlib.Core.List.{reverse}
use updater.Libraries.{Libraries}
use updater.Types.{ResourceResult}
use updater.Deps.{ContainerWithDeps}
use updater.Status.{begin_status_update}
use updater.Hooks.{with_status, record_event, trigger_self_update}
use updater.Hooks.Reading.{IsNoTrigger, IsStopping, IsCreating, with_status-Ensures}
use updater.Restart.Scan.{RestartPlan}
use updater.Restart.Dispatch.{SelfUpdatePlan}
use updater.Restart.Standalone.{with_statuses, planned_ids, update_standalone_restart_candidates}
use updater.Restart.Execute.{trigger_deferred_self_updates, execute_restart_plans}
use updater.Restart.Quiet.{
  build_compose_groups-Quiet, dispatch_all-Quiet, run_standalone-Quiet, stop_candidates-Ensures,
  create_candidates-Ensures,
}
use updater.Ports.{
  Request, DockerClient, Config, Action, Ensures, Any, Ensures-pure, Ensures-ask, Ensures-bind,
  Ensures-then, Ensures-Option, Phases, Phases-of_second, Phases-first, Phases-first_then,
  Phases-second, Phases-Option,
}

-- What is asked while self-updates are triggered.
abbrev pub IsTriggering : Request → Type 0
IsTriggering (Request.trigger_self_update target) = Unit
IsTriggering (Request.update_status project id add) = Unit
IsTriggering (Request.record_event event) = Unit
IsTriggering _ = ⊥

trigger_self_update-Ensures :
    (config : Config) (id name ref : Text) (labels : Map Text)
    → Ensures IsTriggering Any (trigger_self_update config id name ref labels)
unfolding trigger_self_update record_event
trigger_self_update-Ensures config id name ref labels =
    Ensures-Option config.self_updater (Ensures-pure _ tt) (λ u.
      Ensures-then {Q = Any}
        (Ensures-Option config.event_recorder (Ensures-pure _ tt)
          (λ r. Ensures-ask _ _ tt (λ h. tt)))
        (Ensures-ask _ _ tt (λ h. tt)))

module _ (lib : Libraries) (config : Config) where
  trigger_deferred-Ensures :
      (indexes : Map ℕ) (targets : List SelfUpdatePlan) (results : List ResourceResult)
      → Ensures IsTriggering Any (trigger_deferred_self_updates lib config indexes results targets)
  unfolding trigger_deferred_self_updates
  trigger_deferred-Ensures indexes [] results = Ensures-pure _ tt
  trigger_deferred-Ensures indexes (t ∷ targets) results =
      Ensures-Option (lookup indexes t.name) (trigger_deferred-Ensures indexes targets results)
        (λ index.
          Ensures-bind
            (with_status-Ensures false t.container_id (λ id add. tt)
              (trigger_self_update-Ensures config t.container_id t.name t.new_ref t.labels))
            (λ failure q.
              Ensures-Option failure (trigger_deferred-Ensures indexes targets _)
                (λ e. trigger_deferred-Ensures indexes targets _)))

  module _ (docker : DockerClient) where
    -- The requests of a restart run are in two parts. In the first no self-update is triggered; in
    -- the second, which follows it, nothing is asked but the triggers of self-updates, events and
    -- statuses.
    pub execute_restart_plans-Phases :
        (sorted : List ContainerWithDeps) (plans : Map RestartPlan)
        → Phases IsNoTrigger IsTriggering (execute_restart_plans lib config docker sorted plans)
    unfolding execute_restart_plans
    execute_restart_plans-Phases sorted plans =
        Phases-first (build_compose_groups-Quiet config sorted plans) (λ groups.
          Phases-first (dispatch_all-Quiet lib config docker sorted _) (λ run.
            Phases-first (run_standalone-Quiet lib config docker run) (λ results. Phases-of_second (
              trigger_deferred-Ensures run.self_update_indexes run.self_update_candidates
                results))))

    with_statuses-Phases :
        {A : Type 0} {body : Action A} (ids : List Text)
        → Phases IsStopping IsCreating body
        → Phases IsStopping IsCreating (with_statuses lib config ids body)
    unfolding with_statuses with_status
    with_statuses-Phases [] p = p
    with_statuses-Phases (id ∷ ids) p =
        Phases-Option (begin_status_update id) (with_statuses-Phases ids p) (λ (added, removed).
          Phases-first_then (Ensures-ask {Q = Any} _ _ tt (λ h. tt)) (
            Phases-second (with_statuses-Phases ids p) (λ a.
              Ensures-then {R = Any} (Ensures-ask {Q = Any} _ _ tt (λ h. tt)) (Ensures-pure a tt))))

    -- The update of the standalone containers is in two parts as well. In the first containers
    -- are stopped and removed, and none is created or started; in the second, which follows it,
    -- containers are created and started, and none is stopped. No self-update is triggered.
    pub update_standalone-Phases :
        (plans : Map RestartPlan) (candidates : List ContainerWithDeps)
        → Phases IsStopping IsCreating
            (update_standalone_restart_candidates lib config docker plans candidates)
    unfolding update_standalone_restart_candidates
    update_standalone-Phases plans candidates =
        with_statuses-Phases (planned_ids lib config plans candidates) (
          Phases-first (stop_candidates-Ensures lib config docker plans (reverse candidates) [])
            (λ stopped. Phases-of_second (
              Ensures-bind (create_candidates-Ensures lib config docker plans candidates stopped)
                (λ r k. Ensures-pure {Q = Any} _ tt))))
