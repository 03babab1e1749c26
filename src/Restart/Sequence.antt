-- ===== src/Restart/Sequence.antt =====
-- restart.go and restart_helpers.go: the order in which the marked containers restart.
use updater.Common.{
  Bool, true, false, Option, none, some, List, [], ◌∷◌, ◌++◌, if◌then◌else◌, ok, err, Text, Map,
  lookup, insert, elem,
}
use updater.Docker.{InspectResponse}
use updater.LabelPolicy
use updater.LabelPolicy.{LabelPolicy}
use updater.Deps.{ContainerWithDeps, sort}
use updater.Restart.Scan.{RestartPlan, RestartScan}

unfoldable pub marked_candidates : List Text → List ContainerWithDeps → List ContainerWithDeps
marked_candidates marked [] = []
marked_candidates marked (cd ∷ cds) =
    let rest = marked_candidates marked cds in if elem cd.name marked then cd ∷ rest else rest

-- `maps.Copy(into, from)`.
unfoldable pub copy_map : Map Text → Map Text → Map Text
copy_map into [] = into
copy_map into ((key, value) ∷ from) = copy_map (insert into key value) from

abbrev inspect_labels : Option InspectResponse → Map Text
inspect_labels none = []
inspect_labels (some i) = elim i.config [ none ↦ [] | some c ↦ c.labels ]

abbrev copy_plan : Map Text → Option RestartPlan → Map Text
copy_plan labels none = labels
copy_plan labels (some plan) =
    copy_map (copy_map labels plan.cnt.labels) (inspect_labels plan.inspect)

unfoldable pub restart_candidate_labels : ContainerWithDeps → Option RestartPlan → Map Text
unfolding copy_map
restart_candidate_labels candidate plan =
    copy_plan (copy_map (copy_map [] candidate.container.labels) (inspect_labels candidate.inspect))
      plan

-- The three classes into which the candidates fall.
pub data Role : Type 0 where
  normal agent server : Role

unfoldable pub role_of : LabelPolicy → Map RestartPlan → ContainerWithDeps → Role
unfolding restart_candidate_labels
role_of policy plans candidate =
    let labels = restart_candidate_labels candidate (lookup plans candidate.name) in
    if LabelPolicy.is_agent policy labels
    then agent
    else if LabelPolicy.is_server policy labels
    then server
    else normal

abbrev pub same_role : Role → Role → Bool
same_role normal normal = true
same_role agent agent = true
same_role server server = true
same_role _ _ = false

unfoldable pub with_role :
    LabelPolicy → Map RestartPlan → Role → List ContainerWithDeps → List ContainerWithDeps
unfolding role_of
with_role policy plans role [] = []
with_role policy plans role (c ∷ cs) =
    let rest = with_role policy plans role cs in
    if same_role (role_of policy plans c) role then c ∷ rest else rest

-- One candidate or none needs no ordering.
unfoldable pub order_self_update_last :
    List ContainerWithDeps → Map RestartPlan → LabelPolicy → List ContainerWithDeps
unfolding with_role
order_self_update_last [] plans policy = []
order_self_update_last (c ∷ []) plans policy = c ∷ []
order_self_update_last (c ∷ d ∷ cs) plans policy =
    let sorted = c ∷ d ∷ cs in
    with_role policy plans normal sorted
    ++ (with_role policy plans agent sorted ++ with_role policy plans server sorted)

-- On a cycle the containers restart in the order in which they were found.
unfoldable pub sort_restart_candidates : LabelPolicy → RestartScan → List ContainerWithDeps
unfolding marked_candidates order_self_update_last
sort_restart_candidates policy scan =
    let candidates = marked_candidates scan.marked_for_restart scan.containers in
    let sorted : List ContainerWithDeps = elim (sort candidates) [
      | err e ↦ candidates
      | ok cs ↦ cs
    ] in
    order_self_update_last sorted scan.plans_by_name policy
