-- ===== src/Restart/Scan.antt =====
-- restart.go and restart_helpers.go: which containers restart, and in which order.
use updater.Common.{
  ℕ, zero, suc, Bool, true, false, not, ◌&&◌, ◌||◌, Option, none, some, List, [], ◌∷◌, ◌++◌,
  if◌then◌else◌, length, ok, err, Text, codes, ◌==◌, is_empty, trim_space, to_lower, trim_prefix,
  contains, Map, lookup, insert, elem,
}
use updater.Libraries.{Libraries}
use updater.Docker.{Summary, InspectResponse}
use updater.LabelPolicy
use updater.LabelPolicy.{LabelPolicy}
use updater.Match.{
  Match, resolve_container_image_match, should_inspect_unmatched_container_for_image_match,
  current_container_image_id,
}
use updater.DigestCheck.{ids_for_ref}
use updater.Deps.{ContainerWithDeps, extract_container_deps, update_implicit_restart}
use updater.Container.{container_summary_name}
use updater.Ports.{Request, DockerClient, Config, Action, pure, ask, ◌>>=◌}

pub record RestartPlan : Type 0 where
  pub cnt : Summary
  pub inspect : Option InspectResponse
  pub new_ref : Text
  pub match_value : Text
  pub explicit : Bool
  pub implicit : Bool

pub record RestartScan : Type 0 where
  pub plans_by_name : Map RestartPlan
  pub marked_for_restart : List Text
  pub containers : List ContainerWithDeps

unfoldable pub name_excluded : List Text → Text → List Text → Bool
name_excluded excluded proxy_name [] = false
name_excluded excluded proxy_name (name ∷ names) =
    let clean_name = trim_prefix name (codes "/") in
    elem clean_name excluded || clean_name == proxy_name || name_excluded excluded proxy_name names

unfoldable pub should_skip_summary : Summary → List Text → Text → LabelPolicy → Bool
unfolding name_excluded
should_skip_summary summary excluded proxy_name policy =
    if name_excluded excluded proxy_name summary.names
    then true
    else if LabelPolicy.is_update_disabled policy summary.labels
    then true
    else LabelPolicy.is_swarm_task policy summary.labels
      && not (LabelPolicy.is_self_update_target policy summary.labels)

unfoldable pub fallback_image_for_plan : RestartPlan → Text
fallback_image_for_plan plan =
    let config_image : Text = elim plan.inspect [
      | none ↦ []
      | some i ↦ elim i.config [ none ↦ [] | some c ↦ trim_space c.image ]
    ] in
    if is_empty config_image then trim_space plan.cnt.image else config_image

-- The name of the container through which a client reaches Docker over TCP.
unfoldable pub docker_proxy_container_name : Libraries → Text → Text
docker_proxy_container_name lib docker_host =
    let host = trim_space docker_host in
    if is_empty host then [] else elim (lib.parse_url host) [
      | err e ↦ []
      | ok u ↦
          if not (to_lower u.scheme == codes "tcp")
          then []
          else if is_empty u.hostname
              || u.hostname == codes "localhost"
              || contains u.hostname (codes ".")
              || lib.is_ip u.hostname
          then []
          else u.hostname
    ]

-- A container as the scan first records it, with no dependencies.
abbrev bare_deps : Summary → Text → ContainerWithDeps
bare_deps summary name = record {
  container = summary;
  inspect = none;
  name = name;
  links = [];
  depends_on = [];
  network_deps = [];
}

module _ (lib : Libraries) (config : Config) (docker : DockerClient)
    (old_id_to_new_ref updated_norm : Map Text) where
  unfoldable pub match_container_image : Summary → Action (Option InspectResponse × Match)
  match_container_image summary =
      let first = resolve_container_image_match lib summary none old_id_to_new_ref updated_norm in
      if not (is_empty first.0)
        || not (should_inspect_unmatched_container_for_image_match lib summary)
      then pure (none, first)
      else ask (Request.container_inspect summary.id) (λ h. docker.container_inspect h summary.id)
        >>= λ answer. elim answer [
          | err e ↦ pure (none, first)
          | ok inspected ↦ pure (
            some inspected,
            resolve_container_image_match lib summary (some inspected) old_id_to_new_ref
                updated_norm,
          )
        ]

  -- Whether the container runs the image that the new reference names, with the cache before and
  -- after.
  unfoldable pub container_on_target_image :
      Map (List Text) → Summary → Option InspectResponse → Text → Action (Bool × Map (List Text))
  container_on_target_image cache summary inspected new_ref =
      let current = current_container_image_id summary inspected in
      if is_empty current
      then pure (false, cache)
      else ids_for_ref lib (record { docker_client = some docker; digest_resolver = none }) cache
          new_ref
        >>= λ (ids, cache'). pure (elem current ids, cache')

  abbrev scanned : RestartScan → Summary → Option InspectResponse → Match → Text → RestartScan
  scanned scan summary inspected (ref, value) new_ref =
      let name = container_summary_name summary in
      let explicit = not (is_empty new_ref) in
      record {
        plans_by_name = insert scan.plans_by_name name (record {
          cnt = summary;
          inspect = inspected;
          new_ref = new_ref;
          match_value = value;
          explicit = explicit;
          implicit = false;
        });
        marked_for_restart =
            if explicit then name ∷ scan.marked_for_restart else scan.marked_for_restart;
        containers = scan.containers ++ bare_deps summary name ∷ [];
      }

  -- The new reference is dropped where the container runs its image already.
  unfoldable pub scan_summary :
      RestartScan → Map (List Text) → Summary → Action (RestartScan × Map (List Text))
  unfolding match_container_image container_on_target_image
  scan_summary scan cache summary = match_container_image summary >>= λ (inspected, found).
      if is_empty found.0
      then pure (scanned scan summary inspected found [], cache)
      else container_on_target_image cache summary inspected found.0 >>= λ (current, cache').
          pure (scanned scan summary inspected found (if current then [] else found.0), cache')

  unfoldable pub scan_summaries :
      List Text → Text → RestartScan → Map (List Text) → List Summary → Action RestartScan
  unfolding scan_summary
  scan_summaries excluded proxy_name scan cache [] = pure scan
  scan_summaries excluded proxy_name scan cache (summary ∷ summaries) =
      if should_skip_summary summary excluded proxy_name config.label_policy
      then scan_summaries excluded proxy_name scan cache summaries
      else scan_summary scan cache summary >>= λ (scan', cache').
          scan_summaries excluded proxy_name scan' cache' summaries

  unfoldable pub scan_restart_candidates : List Text → Text → List Summary → Action RestartScan
  unfolding scan_summaries
  scan_restart_candidates excluded proxy_name summaries =
      scan_summaries excluded proxy_name
        (record { plans_by_name = []; marked_for_restart = []; containers = [] }) [] summaries

abbrev pub with_inspect : RestartPlan → InspectResponse → RestartPlan
with_inspect plan inspect = record plan { inspect = some inspect }

abbrev plan_inspect : Option RestartPlan → Option InspectResponse
plan_inspect none = none
plan_inspect (some plan) = plan.inspect

abbrev set_inspect : Map RestartPlan → Text → InspectResponse → Map RestartPlan
set_inspect plans name inspect = elim (lookup plans name) [
  | none ↦ plans
  | some plan ↦ insert plans name (with_inspect plan inspect)
]

module _ (lib : Libraries) (docker : DockerClient) where
  -- The loop over the scanned containers, with the plans.
  unfoldable pub resolve_dependencies :
      Map RestartPlan → List ContainerWithDeps → Action (Map RestartPlan × List ContainerWithDeps)
  resolve_dependencies plans [] = pure (plans, [])
  resolve_dependencies plans (cwd ∷ cwds) = elim (plan_inspect (lookup plans cwd.name)) [
    | some inspect ↦ do
      (plans', rest) ← resolve_dependencies plans cwds
      pure (plans', extract_container_deps lib.is_container cwd.name cwd.container inspect ∷ rest)
    | none ↦ do
      answer ←
          ask (Request.container_inspect cwd.container.id)
            (λ h. docker.container_inspect h cwd.container.id)
      elim answer [
        | err e ↦ do (plans', rest) ← resolve_dependencies plans cwds; pure (plans', cwd ∷ rest)
        | ok inspect ↦ do
          (plans', rest) ← resolve_dependencies (set_inspect plans cwd.name inspect) cwds
          pure (
            plans',
            extract_container_deps lib.is_container cwd.name cwd.container inspect ∷ rest,
          )
      ]
  ]

  unfoldable pub resolve_restart_dependencies : RestartScan → Action RestartScan
  unfolding resolve_dependencies
  resolve_restart_dependencies scan = elim scan.marked_for_restart [
    | [] ↦ pure scan
    | name ∷ names ↦ do
      (plans, containers) ← resolve_dependencies scan.plans_by_name scan.containers
      pure (record scan { plans_by_name = plans; containers = containers })
  ]

abbrev pub implied : RestartPlan → RestartPlan
implied plan = record plan {
  new_ref = fallback_image_for_plan plan;
  match_value = codes "dependency_restart";
  implicit = true;
}

-- The loop over the names that a round has marked.
unfoldable pub plan_implied : Map RestartPlan → List Text → Map RestartPlan
plan_implied plans [] = plans
plan_implied plans (name ∷ names) = elim (lookup plans name) [
  | none ↦ plan_implied plans names
  | some plan ↦
      plan_implied (if is_empty plan.new_ref then insert plans name (implied plan) else plans) names
]

-- The rounds of `propagateImplicitRestarts`, on fuel; `none` means that the fuel ran out.
unfoldable pub propagate_rounds : ℕ → RestartScan → Option RestartScan
unfolding plan_implied
propagate_rounds zero scan = none
propagate_rounds (suc fuel) scan =
    let (marked, added) = update_implicit_restart scan.containers scan.marked_for_restart in
    let after : RestartScan = record scan {
      marked_for_restart = marked;
      plans_by_name = plan_implied scan.plans_by_name added;
    } in
    elim added [ [] ↦ some after | name ∷ names ↦ propagate_rounds fuel after ]

-- One round more than there are containers is enough.
unfoldable pub propagate_implicit_restarts : RestartScan → Option RestartScan
unfolding propagate_rounds
propagate_implicit_restarts scan = propagate_rounds (suc (length scan.containers)) scan
