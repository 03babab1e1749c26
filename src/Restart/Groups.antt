-- ===== src/Restart/Groups.antt =====
-- compose_groups.go: the candidates of each Docker Compose project that the host application knows.
use updater.Common.{
  ◌||◌, Option, none, some, List, [], ◌∷◌, ◌++◌, if◌then◌else◌, ok, err, Text, ◌==◌, is_empty, Map,
  lookup, insert, elem,
}
use updater.Docker.{InspectResponse, ContainerConfig}
use updater.LabelPolicy
use updater.Compose.{project_label, service_label}
use updater.Deps.{ContainerWithDeps}
use updater.Ports.{Request, ProjectUpdater, Config, Action, pure, ask, ◌>>=◌}
use updater.Restart.Scan.{RestartPlan}

-- `seen` holds the names of `services`, and is left out.
pub record ComposeGroup : Type 0 where
  pub project_name : Text
  pub services : List Text

abbrev group_or_new : Option ComposeGroup → ComposeGroup
group_or_new none = record { project_name = []; services = [] }
group_or_new (some group) = group

abbrev with_service : ComposeGroup → Text → Text → ComposeGroup
with_service group project service = record {
  project_name = project;
  services = if elem service group.services then group.services else group.services ++ service ∷ [];
}

unfoldable pub add_service : Map ComposeGroup → Text → Text → Text → Map ComposeGroup
add_service groups id project service =
    insert groups id (with_service (group_or_new (lookup groups id)) project service)

abbrev plan_config : Option InspectResponse → Option ContainerConfig
plan_config none = none
plan_config (some inspect) = inspect.config

-- The labels of a plan that may join a group: it has a new reference and an inspected config.
unfoldable pub group_labels : Option RestartPlan → Option (Map Text)
group_labels none = none
group_labels (some plan) =
    if is_empty plan.new_ref
    then none
    else elim (plan_config plan.inspect) [ none ↦ none | some config ↦ some config.labels ]

module _ (config : Config) where
  unfoldable pub group_candidate :
      ProjectUpdater → Map ComposeGroup → Map Text → Action (Map ComposeGroup)
  unfolding add_service
  group_candidate updater groups labels =
      let project = project_label labels in
      let service = service_label labels in
      if LabelPolicy.is_self_update_target config.label_policy labels
      then pure groups
      else if is_empty project || is_empty service
      then pure groups
      else ask (Request.project_by_compose_name project)
          (λ h. updater.project_by_compose_name h project)
        >>= λ answer. elim answer [
          | err e ↦ pure groups
          | ok p ↦ pure (if is_empty p.id then groups else add_service groups p.id project service)
        ]

  unfoldable pub group_candidates :
      ProjectUpdater
      → Map RestartPlan
      → Map ComposeGroup
      → List ContainerWithDeps
      → Action (Map ComposeGroup)
  unfolding group_labels group_candidate
  group_candidates updater plans groups [] = pure groups
  group_candidates updater plans groups (c ∷ cs) = elim (group_labels (lookup plans c.name)) [
    | none ↦ group_candidates updater plans groups cs
    | some labels ↦ do
      groups' ← group_candidate updater groups labels
      group_candidates updater plans groups' cs
  ]

  unfoldable pub build_compose_groups :
      List ContainerWithDeps → Map RestartPlan → Action (Map ComposeGroup)
  unfolding group_candidates
  build_compose_groups sorted plans = elim config.project_updater [
    | none ↦ pure []
    | some updater ↦ group_candidates updater plans [] sorted
  ]

unfoldable pub project_of : Text → Map ComposeGroup → Text
project_of project_name [] = []
project_of project_name ((id, group) ∷ groups) =
    if group.project_name == project_name then id else project_of project_name groups

unfoldable pub compose_project_id : Text → Map ComposeGroup → Text
unfolding project_of
compose_project_id project_name groups =
    if is_empty project_name then [] else project_of project_name groups
