-- ===== src/Restart/Execute.antt =====
-- restart.go: the plans are carried out. Compose services are updated at once, standalone
-- containers together, and the host application's own containers at the very end.
use updater.Common.{
  ℕ, false, Option, none, some, List, [], ◌∷◌, ◌++◌, if◌then◌else◌, get_elem?, set, Result, ok, err,
  Text, codes, is_empty, trim_space, Map, lookup,
}
use updater.Libraries.{Libraries}
use updater.Docker.{Summary, ListOptions}
use updater.Types.{ResourceResult}
use updater.Results.{failed_container_result}
use updater.Refs.{normalize_image_update_ref_map_keys}
use updater.Deps.{ContainerWithDeps}
use updater.Hooks.{with_status, docker_client, trigger_self_update}
use updater.Restart.Scan.{
  RestartPlan, scan_restart_candidates, resolve_restart_dependencies, propagate_implicit_restarts,
  docker_proxy_container_name,
}
use updater.Restart.Sequence.{sort_restart_candidates}
use updater.Restart.Groups.{build_compose_groups}
use updater.Ports.{Request, DockerClient, Config, Action, pure, ask, ◌>>=◌}
use updater.Restart.Outcomes.{failing, succeeding, result_or}
use updater.Restart.Standalone.{update_standalone_restart_candidates}
use updater.Restart.Dispatch.{SelfUpdatePlan, RestartRun, dispatch_all}

module _ (lib : Libraries) (config : Config) where
  -- The loop that writes the results of the standalone candidates to their places.
  unfoldable pub place_results :
      Map ℕ → List ResourceResult → List ResourceResult → List ResourceResult
  place_results indexes results [] = results
  place_results indexes results (r ∷ rs) = elim (lookup indexes r.resource_name) [
    | none ↦ place_results indexes results rs
    | some index ↦ place_results indexes (set results index r) rs
  ]

  abbrev result_at : List ResourceResult → ℕ → ResourceResult
  result_at results index =
      result_or lib config (get_elem? results index) (failed_container_result [] [] [])

  -- The loop over the deferred self-updates. An index always lies within the results.
  unfoldable pub trigger_deferred_self_updates :
      Map ℕ → List ResourceResult → List SelfUpdatePlan → Action (List ResourceResult)
  trigger_deferred_self_updates indexes results [] = pure results
  trigger_deferred_self_updates indexes results (target ∷ targets) =
      elim (lookup indexes target.name) [
        | none ↦ trigger_deferred_self_updates indexes results targets
        | some index ↦ do
          failure ← with_status false target.container_id (
              trigger_self_update config target.container_id target.name target.new_ref
                target.labels)
          let res = result_at results index
          elim failure [
            | some e ↦
                trigger_deferred_self_updates indexes (set results index (failing res e)) targets
            | none ↦
                trigger_deferred_self_updates indexes (set results index (succeeding res)) targets
          ]
      ]

  -- `if len(run.standaloneCandidates) > 0`.
  unfoldable pub run_standalone : DockerClient → RestartRun → Action (List ResourceResult)
  unfolding update_standalone_restart_candidates place_results
  run_standalone docker run = elim run.standalone_candidates [
    | [] ↦ pure run.results
    | c ∷ cs ↦ do
      standalone ← update_standalone_restart_candidates lib config docker run.plans (c ∷ cs)
      pure (place_results run.standalone_indexes run.results standalone)
  ]

  unfoldable pub execute_restart_plans :
      DockerClient → List ContainerWithDeps → Map RestartPlan → Action (List ResourceResult)
  unfolding dispatch_all run_standalone trigger_deferred_self_updates
  execute_restart_plans docker sorted plans = do
    groups ← build_compose_groups config sorted plans
    run ←
        dispatch_all lib config docker
          (record {
            plans = plans;
            compose_groups = groups;
            processed_projects = [];
            project_results = [];
            standalone_candidates = [];
            standalone_indexes = [];
            self_update_candidates = [];
            self_update_indexes = [];
            results = [];
          })
          sorted
    results ← run_standalone docker run
    trigger_deferred_self_updates run.self_update_indexes results run.self_update_candidates

  -- `excludedContainerSet`: the trimmed names that are not blank.
  unfoldable pub trimmed_names : List Text → List Text
  trimmed_names [] = []
  trimmed_names (name ∷ names) =
      let name' = trim_space name in
      if is_empty name' then trimmed_names names else name' ∷ trimmed_names names

  unfoldable pub excluded_container_set : Action (Result (List Text))
  unfolding trimmed_names
  excluded_container_set = elim config.settings [
    | none ↦ pure (ok [])
    | some excluded ↦ do
      answer ← ask Request.excluded_containers excluded
      elim answer [ err e ↦ pure (err e) | ok names ↦ pure (ok (trimmed_names names)) ]
  ]

  abbrev pub running_only : ListOptions
  running_only = record { all = false; filters = [] }

  -- The part that follows the answers of the two lists. Propagation never runs out of fuel.
  unfoldable pub restart_listed :
      DockerClient → Map Text → Map Text → List Summary → List Text → Action (List ResourceResult)
  restart_listed docker old_id_to_new_ref old_ref_to_new_ref summaries excluded = do
    scan ←
        scan_restart_candidates lib config docker old_id_to_new_ref
          (normalize_image_update_ref_map_keys lib old_ref_to_new_ref) excluded
          (docker_proxy_container_name lib docker.daemon_host) summaries
    resolved ← resolve_restart_dependencies lib docker scan
    elim (propagate_implicit_restarts resolved) [
      | none ↦ pure []
      | some marked ↦
          execute_restart_plans docker (sort_restart_candidates config.label_policy marked)
            marked.plans_by_name
    ]

  -- The results and the error.
  unfoldable pub restart_containers_using_old_images :
      Map Text → Map Text → Action (List ResourceResult × Option Text)
  unfolding restart_listed excluded_container_set
  restart_containers_using_old_images old_id_to_new_ref old_ref_to_new_ref = do
    client ← docker_client config
    elim client [
      | err e ↦ pure ([], some (codes "docker connect: " ++ e))
      | ok docker ↦ do
        listed ←
            ask (Request.container_list running_only) (λ h. docker.container_list h running_only)
        elim listed [
          | err e ↦ pure ([], some (codes "list containers: " ++ e))
          | ok summaries ↦ do
            excluded ← excluded_container_set
            elim excluded [
              | err e ↦ pure ([], some e)
              | ok names ↦ do
                results ← restart_listed docker old_id_to_new_ref old_ref_to_new_ref summaries names
                pure (results, none)
            ]
        ]
    ]
