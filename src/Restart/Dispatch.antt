-- ===== src/Restart/Dispatch.antt =====
-- restart.go: each candidate is updated at once or queued for a later phase.
use updater.Common.{
  ℕ, true, false, not, ◌&&◌, Option, none, some, List, [], ◌∷◌, ◌++◌, if◌then◌else◌, length, ok,
  err, Text, codes, is_empty, Map, lookup, insert, elem,
}
use updater.Libraries.{Libraries}
use updater.Docker.{InspectResponse}
use updater.Types.{ResourceResult, skipped}
use updater.Results.{failed_container_result, labels_from_inspect}
use updater.Compose.{project_label, service_label}
use updater.Match.{current_container_image_id, verify_compose_service_updated_image}
use updater.Deps.{ContainerWithDeps}
use updater.Hooks.{with_status, is_self_update_candidate}
use updater.Container.{validate_standalone_container_update}
use updater.Restart.Scan.{RestartPlan, with_inspect}
use updater.Restart.Groups.{ComposeGroup, compose_project_id}
use updater.Ports.{Request, DockerClient, Config, Action, pure, ask, ◌>>=◌, ◌>>◌}
use updater.Restart.Outcomes.{failing, succeeding, standalone_restart_result, notify_updated}

pub record SelfUpdatePlan : Type 0 where
  pub container_id : Text
  pub name : Text
  pub new_ref : Text
  pub labels : Map Text

-- The accumulated results and deferred work, with the plans, whose `inspect` is filled in late.
pub record RestartRun : Type 0 where
  pub plans : Map RestartPlan
  pub compose_groups : Map ComposeGroup
  pub processed_projects : List Text
  pub project_results : Map Text
  pub standalone_candidates : List ContainerWithDeps
  pub standalone_indexes : Map ℕ
  pub self_update_candidates : List SelfUpdatePlan
  pub self_update_indexes : Map ℕ
  pub results : List ResourceResult

abbrev pub add_result : RestartRun → ResourceResult → RestartRun
add_result run res = record run { results = run.results ++ res ∷ [] }

abbrev pub group_services : Option ComposeGroup → List Text
group_services none = []
group_services (some group) = group.services

module _ (lib : Libraries) (config : Config) where
  -- A project is updated once in a run. Groups exist only where there is a `ProjectUpdater`.
  unfoldable pub process_project : RestartRun → Text → Action RestartRun
  process_project run project_id =
      if elem project_id run.processed_projects then pure run else elim config.project_updater [
        | none ↦ pure run
        | some updater ↦ do
          let services = group_services (lookup run.compose_groups project_id)
          failure ←
              ask (Request.update_services project_id services)
                (λ h. updater.update_services h project_id services)
          let processed = project_id ∷ run.processed_projects
          elim failure [
            | none ↦ pure (record run { processed_projects = processed })
            | some e ↦ pure (record run {
              processed_projects = processed;
              project_results = insert run.project_results project_id e;
            })
          ]
      ]

  abbrev verify_message : Option Text → Text → Text
  verify_message none v = codes "service update verification failed: " ++ v
  verify_message (some p) v =
      codes "project-level update failed: "
      ++ (p ++ (codes "; service update verification failed: " ++ v))

  unfoldable pub apply_compose_service_update :
      DockerClient
      → RestartRun
      → ResourceResult
      → RestartPlan
      → (name project_id project_name service_name : Text) → Action (RestartRun × ResourceResult)
  unfolding process_project
  apply_compose_service_update docker run res plan name project_id project_name service_name = do
    run' ← process_project run project_id
    verified ←
        verify_compose_service_updated_image (some docker) project_name service_name
          (current_container_image_id plan.cnt plan.inspect)
    elim verified [
      | some v ↦
          pure (run', failing res (verify_message (lookup run'.project_results project_id) v))
      | none ↦ notify_updated lib config plan.cnt.id name plan >> pure (run', succeeding res)
    ]

  -- The self-update is deferred: its trigger may stop this process.
  abbrev defer_self_update : RestartRun → ContainerWithDeps → RestartPlan → Map Text → RestartRun
  defer_self_update run candidate plan labels = record run {
    self_update_indexes = insert run.self_update_indexes candidate.name (length run.results);
    self_update_candidates =
        run.self_update_candidates
        ++ record {
          container_id = plan.cnt.id;
          name = candidate.name;
          new_ref = plan.new_ref;
          labels = labels;
        }
          ∷ [];
  }

  abbrev defer_standalone : RestartRun → ContainerWithDeps → RestartRun
  defer_standalone run candidate = record run {
    standalone_indexes = insert run.standalone_indexes candidate.name (length run.results);
    standalone_candidates = run.standalone_candidates ++ candidate ∷ [];
  }

  -- The three ways of a candidate that has a new reference.
  unfoldable pub route_candidate :
      DockerClient → RestartRun → ContainerWithDeps → RestartPlan → Map Text → Action RestartRun
  unfolding apply_compose_service_update
  route_candidate docker run candidate plan labels =
      let res = standalone_restart_result lib config candidate plan in
      let project_name = project_label labels in
      let service_name = service_label labels in
      let project_id = compose_project_id project_name run.compose_groups in
      let self_update = is_self_update_candidate config plan.cnt.id labels in
      if not (is_empty project_id) && not (is_empty service_name) && not self_update
      then (apply_compose_service_update docker run res plan candidate.name project_id project_name
            service_name
          >>= λ (run', res'). pure (add_result run' res'))
      else if self_update
      then pure (add_result (defer_self_update run candidate plan labels) res)
      else elim (validate_standalone_container_update lib config labels) [
        | some e ↦ pure (add_result run (failing res e))
        | none ↦ pure (add_result (defer_standalone run candidate) res)
      ]

  unfoldable pub dispatch_inspected :
      DockerClient
      → RestartRun
      → ContainerWithDeps
      → RestartPlan
      → InspectResponse
      → Action RestartRun
  unfolding route_candidate
  dispatch_inspected docker run candidate plan inspect =
      let labels = labels_from_inspect inspect in
      if is_empty plan.new_ref
      then pure (
          add_result run (record (standalone_restart_result lib config candidate plan) {
            status = skipped;
            error = codes "no matching updated image";
          }))
      else with_status false plan.cnt.id (
          with_status true (project_label labels)
            (route_candidate docker run candidate plan labels))

  unfoldable pub dispatch_restart_candidate :
      DockerClient → RestartRun → ContainerWithDeps → RestartPlan → Action RestartRun
  unfolding dispatch_inspected
  dispatch_restart_candidate docker run candidate plan = elim plan.inspect [
    | some inspect ↦ dispatch_inspected docker run candidate plan inspect
    | none ↦ do
      answer ←
          ask (Request.container_inspect plan.cnt.id) (λ h. docker.container_inspect h plan.cnt.id)
      elim answer [
        | err e ↦ pure (
            add_result run
              (failed_container_result plan.cnt.id candidate.name (codes "inspect failed: " ++ e)))
        | ok inspect ↦
            let plan' : RestartPlan = with_inspect plan inspect in
            dispatch_inspected docker (record run { plans = insert run.plans candidate.name plan' })
              candidate plan' inspect
      ]
  ]

  unfoldable pub dispatch_all :
      DockerClient → RestartRun → List ContainerWithDeps → Action RestartRun
  unfolding dispatch_restart_candidate
  dispatch_all docker run [] = pure run
  dispatch_all docker run (candidate ∷ candidates) = elim (lookup run.plans candidate.name) [
    | none ↦ dispatch_all docker run candidates
    | some plan ↦ do
      run' ← dispatch_restart_candidate docker run candidate plan
      dispatch_all docker run' candidates
  ]
