-- ===== src/Restart/Quiet.antt =====
-- Until the deferred self-updates, a restart run triggers none.
use updater.Common.{true, false, not, ◌&&◌, ◌||◌, List, [], ◌∷◌, Text, is_empty, Map, lookup, elem}
use mathlib.Core.List.{reverse}
use updater.Libraries.{Libraries}
use updater.LabelPolicy
use updater.Docker.{InspectResponse}
use updater.Types.{ResourceResult}
use updater.Compose.{project_label, service_label}
use updater.Results.{labels_from_inspect}
use updater.Match.{current_container_image_id}
use updater.Match.Quiet.{verify_compose_service-Ensures}
use updater.Deps.{ContainerWithDeps}
use updater.Hooks.{notify, is_self_update_candidate}
use updater.Hooks.Reading.{
  IsNoTrigger, IsStopping, IsCreating, IsNoTrigger-of_stopping, IsNoTrigger-of_creating,
  with_status-Ensures,
}
use updater.Container.{validate_standalone_container_update}
use updater.Container.Quiet.{stop_and_remove-Ensures, create_start_or_rollback-Free}
use updater.Restart.Scan.{RestartPlan}
use updater.Restart.Groups.{
  ComposeGroup, group_labels, group_candidate, group_candidates, build_compose_groups,
  compose_project_id,
}
use updater.Restart.Outcomes.{notify_updated, has_failed, result_or, standalone_restart_result}
use updater.Restart.Standalone.{
  ready_plan, stop_candidates, create_candidate, create_candidates, with_statuses, planned_ids,
  update_standalone_restart_candidates,
}
use updater.Restart.Dispatch.{
  RestartRun, process_project, apply_compose_service_update, route_candidate, dispatch_inspected,
  dispatch_restart_candidate, dispatch_all,
}
use updater.Restart.Execute.{run_standalone}
use updater.Ports.{
  DockerClient, ProjectUpdater, Config, Action, Ensures, Any, Ensures-pure, Ensures-ask,
  Ensures-bind, Ensures-then, Ensures-Option, Ensures-Result, Ensures-List, Ensures-if,
  Ensures-weaken,
}

abbrev pub Quiet : {A : Type 0} → Action A → Type 0
Quiet m = Ensures IsNoTrigger Any m

module _ (config : Config) where
  group_candidate-Quiet :
      (updater : ProjectUpdater) (groups : Map ComposeGroup) (labels : Map Text)
      → Quiet (group_candidate config updater groups labels)
  unfolding group_candidate
  group_candidate-Quiet updater groups labels =
      Ensures-if (LabelPolicy.is_self_update_target config.label_policy labels) (Ensures-pure _ tt)
        (Ensures-if (is_empty (project_label labels) || is_empty (service_label labels))
          (Ensures-pure _ tt)
          (Ensures-bind (Ensures-ask {Q = Any} _ _ tt (λ h. tt))
            (λ a q. Ensures-Result a (λ e. Ensures-pure _ tt) (λ p. Ensures-pure _ tt))))

  group_candidates-Quiet :
      (updater : ProjectUpdater) (plans : Map RestartPlan) (groups : Map ComposeGroup)
      (cs : List ContainerWithDeps)
      → Quiet (group_candidates config updater plans groups cs)
  unfolding group_candidates
  group_candidates-Quiet updater plans groups [] = Ensures-pure _ tt
  group_candidates-Quiet updater plans groups (c ∷ cs) =
      Ensures-Option (group_labels (lookup plans c.name))
        (group_candidates-Quiet updater plans groups cs)
        (λ labels.
          Ensures-bind (group_candidate-Quiet updater groups labels)
            (λ groups' q. group_candidates-Quiet updater plans groups' cs))

  pub build_compose_groups-Quiet :
      (sorted : List ContainerWithDeps) (plans : Map RestartPlan)
      → Quiet (build_compose_groups config sorted plans)
  unfolding build_compose_groups
  build_compose_groups-Quiet sorted plans =
      Ensures-Option config.project_updater (Ensures-pure _ tt)
        (λ updater. group_candidates-Quiet updater plans [] sorted)

module _ (lib : Libraries) (config : Config) where
  notify_updated-Quiet :
      (id name : Text) (plan : RestartPlan) → Quiet (notify_updated lib config id name plan)
  unfolding notify_updated notify
  notify_updated-Quiet id name plan =
      Ensures-Option config.notifier (Ensures-pure _ tt) (λ n. Ensures-ask _ _ tt (λ h. tt))

  process_project-Quiet : (run : RestartRun) (id : Text) → Quiet (process_project lib config run id)
  unfolding process_project
  process_project-Quiet run id = Ensures-if (elem id run.processed_projects) (Ensures-pure _ tt) (
      Ensures-Option config.project_updater (Ensures-pure _ tt) (λ updater.
        Ensures-bind (Ensures-ask {Q = Any} _ _ tt (λ h. tt))
          (λ a q. Ensures-Option a (Ensures-pure _ tt) (λ e. Ensures-pure _ tt))))

  module _ (docker : DockerClient) where
    apply_compose-Quiet :
        (run : RestartRun) (res : ResourceResult) (plan : RestartPlan)
        (name project_id project_name service_name : Text)
        → Quiet (
            apply_compose_service_update lib config docker run res plan name project_id project_name
              service_name)
    unfolding apply_compose_service_update
    apply_compose-Quiet run res plan name project_id project_name service_name =
        Ensures-bind (process_project-Quiet run project_id) (λ run' q.
          Ensures-bind
            (verify_compose_service-Ensures docker project_name service_name
              (current_container_image_id plan.cnt plan.inspect))
            (λ v k.
              Ensures-Option v
                (Ensures-then (notify_updated-Quiet plan.cnt.id name plan) (Ensures-pure _ tt))
                (λ e. Ensures-pure _ tt)))

    route_candidate-Quiet :
        (run : RestartRun) (c : ContainerWithDeps) (plan : RestartPlan) (labels : Map Text)
        → Quiet (route_candidate lib config docker run c plan labels)
    unfolding route_candidate
    route_candidate-Quiet run c plan labels =
        Ensures-if
          (not (is_empty (compose_project_id (project_label labels) run.compose_groups))
            && not (is_empty (service_label labels))
            && not (is_self_update_candidate config plan.cnt.id labels))
          (Ensures-bind
            (apply_compose-Quiet run (standalone_restart_result lib config c plan) plan c.name
              (compose_project_id (project_label labels) run.compose_groups) (project_label labels)
              (service_label labels))
            (λ a q. Ensures-pure _ tt))
          (Ensures-if (is_self_update_candidate config plan.cnt.id labels) (Ensures-pure _ tt) (
            Ensures-Option (validate_standalone_container_update lib config labels)
              (Ensures-pure _ tt) (λ e. Ensures-pure _ tt)))

    dispatch_inspected-Quiet :
        (run : RestartRun) (c : ContainerWithDeps) (plan : RestartPlan) (inspect : InspectResponse)
        → Quiet (dispatch_inspected lib config docker run c plan inspect)
    unfolding dispatch_inspected
    dispatch_inspected-Quiet run c plan inspect =
        Ensures-if (is_empty plan.new_ref) (Ensures-pure _ tt) (
          with_status-Ensures false plan.cnt.id (λ id add. tt)
            (with_status-Ensures true (project_label (labels_from_inspect inspect)) (λ id add. tt)
              (route_candidate-Quiet run c plan (labels_from_inspect inspect))))

    dispatch_restart_candidate-Quiet :
        (run : RestartRun) (c : ContainerWithDeps) (plan : RestartPlan)
        → Quiet (dispatch_restart_candidate lib config docker run c plan)
    unfolding dispatch_restart_candidate
    dispatch_restart_candidate-Quiet run c plan =
        Ensures-Option plan.inspect
          (Ensures-bind (Ensures-ask {Q = Any} _ _ tt (λ h. tt)) (λ a q.
            Ensures-Result a (λ e. Ensures-pure _ tt)
              (λ inspect. dispatch_inspected-Quiet _ c _ inspect)))
          (λ inspect. dispatch_inspected-Quiet run c plan inspect)

    pub dispatch_all-Quiet :
        (cs : List ContainerWithDeps) (run : RestartRun)
        → Quiet (dispatch_all lib config docker run cs)
    unfolding dispatch_all
    dispatch_all-Quiet [] run = Ensures-pure _ tt
    dispatch_all-Quiet (c ∷ cs) run =
        Ensures-Option (lookup run.plans c.name) (dispatch_all-Quiet cs run) (λ plan.
          Ensures-bind (dispatch_restart_candidate-Quiet run c plan)
            (λ run' q. dispatch_all-Quiet cs run'))

    pub stop_candidates-Ensures :
        (plans : Map RestartPlan) (cs : List ContainerWithDeps) (results : Map ResourceResult)
        → Ensures IsStopping Any (stop_candidates lib config docker plans results cs)
    unfolding stop_candidates
    stop_candidates-Ensures plans [] results = Ensures-pure _ tt
    stop_candidates-Ensures plans (c ∷ cs) results =
        Ensures-Option (ready_plan lib config plans c) (stop_candidates-Ensures plans cs results)
          (λ (plan, inspect).
            Ensures-bind (stop_and_remove-Ensures lib config docker plan.cnt inspect) (λ f q.
              Ensures-Option f (stop_candidates-Ensures plans cs _)
                (λ e. stop_candidates-Ensures plans cs _)))

    notify_updated-Creating :
        (id name : Text) (plan : RestartPlan)
        → Ensures IsCreating Any (notify_updated lib config id name plan)
    unfolding notify_updated notify
    notify_updated-Creating id name plan =
        Ensures-Option config.notifier (Ensures-pure _ tt) (λ n. Ensures-ask _ _ tt (λ h. tt))

    create_candidate-Ensures :
        (c : ContainerWithDeps) (plan : RestartPlan) (inspect : InspectResponse)
        (result : ResourceResult)
        → Ensures IsCreating Any (create_candidate lib config docker c plan inspect result)
    unfolding create_candidate
    create_candidate-Ensures c plan inspect result =
        Ensures-bind (create_start_or_rollback-Free lib config docker plan.cnt inspect plan.new_ref)
          (λ f q.
            Ensures-Option f
              (Ensures-if plan.implicit (Ensures-pure _ tt) (
                Ensures-then (notify_updated-Creating plan.cnt.id c.name plan) (Ensures-pure _ tt)))
              (λ e. Ensures-pure _ tt))

    pub create_candidates-Ensures :
        (plans : Map RestartPlan) (cs : List ContainerWithDeps) (results : Map ResourceResult)
        → Ensures IsCreating Any (create_candidates lib config docker plans results cs)
    unfolding create_candidates
    create_candidates-Ensures plans [] results = Ensures-pure _ tt
    create_candidates-Ensures plans (c ∷ cs) results =
        Ensures-Option (ready_plan lib config plans c) (create_candidates-Ensures plans cs results)
          (λ (plan, inspect).
            Ensures-if
              (has_failed lib config (
                result_or lib config (lookup results c.name)
                  (standalone_restart_result lib config c plan)))
              (create_candidates-Ensures plans cs _)
              (Ensures-bind
                (create_candidate-Ensures c plan inspect (
                  result_or lib config (lookup results c.name)
                    (standalone_restart_result lib config c plan)))
                (λ r q. create_candidates-Ensures plans cs _)))

    with_statuses-Quiet :
        {A : Type 0} {body : Action A} (ids : List Text)
        → Quiet body
        → Quiet (with_statuses lib config ids body)
    unfolding with_statuses
    with_statuses-Quiet [] q = q
    with_statuses-Quiet (id ∷ ids) q =
        with_status-Ensures false id (λ id add. tt) (with_statuses-Quiet ids q)

    update_standalone-Quiet :
        (plans : Map RestartPlan) (cs : List ContainerWithDeps)
        → Quiet (update_standalone_restart_candidates lib config docker plans cs)
    unfolding update_standalone_restart_candidates
    update_standalone-Quiet plans cs = with_statuses-Quiet (planned_ids lib config plans cs) (
        Ensures-bind
          (Ensures-weaken IsNoTrigger-of_stopping (stop_candidates-Ensures plans (reverse cs) []))
          (λ stopped q.
            Ensures-bind
              (Ensures-weaken IsNoTrigger-of_creating (create_candidates-Ensures plans cs stopped))
              (λ r k. Ensures-pure _ tt)))

    pub run_standalone-Quiet : (run : RestartRun) → Quiet (run_standalone lib config docker run)
    unfolding run_standalone
    run_standalone-Quiet run = Ensures-List run.standalone_candidates (Ensures-pure _ tt) (λ c cs.
        Ensures-bind (update_standalone-Quiet run.plans (c ∷ cs)) (λ r q. Ensures-pure _ tt))
