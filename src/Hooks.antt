-- ===== src/Hooks.antt =====
-- hooks.go and the Docker client of a service: the calls of the host application's optional ports.
-- A port that is nil is not asked, and answers with no error.
pub mod Reading
use updater.Common.{
  ℕ, zero, suc, ◌+◌, ◌-◌, ◌*◌, ◌≤◌, ◌<◌, ◌≡◌, refl, sym, ap, ◌∙◌, subst, ◌≢◌, ◌↔◌, ◌⊎◌, inl, inr,
  Bool, true, false, not, ◌&&◌, ◌||◌, Option, none, some, List, [], ◌∷◌, ◌++◌, map, arith, ltb, leb,
  num_eq, if◌then◌else◌, ltb→lt, leb→le, num_eq_iff, Bool-cases, Option-cases, length, get_elem?,
  set, take, drop, last?, length-append, In, All, Distinct, Includes, In-append_left,
  In-append_right, In-append_cases, In-middle, All-append, All-In, All-of_In, All-map,
  Distinct-append, Result, ok, err, Text, codes, ◌==◌, eq_iff, eq_refl, is_empty, is_empty_iff,
  is_space, trim_left, trim_right, trim_left, trim_right, trim_space, to_lower, to_upper, fold_case,
  equal_fold, has_prefix, trim_prefix_of, trim_prefix, trim_suffix, contains, cut, before_sep,
  split, join, text_lt, trim_space_idem, has_prefix_iff, Map, lookup, insert, delete, elem,
  lookup-insert, lookup-delete, elem_iff, not-In_of_elem, text_functions, sort_texts, sort_texts-In,
  sort_texts-Distinct,
}
use updater.Docker.{Summary}
use updater.Types.{ResourceResult, SelfUpdateTarget, Notification, Event}
use updater.LabelPolicy
use updater.Status.{begin_status_update}
use updater.Ports.{Request, DockerClient, Config, Action, pure, ask, ◌>>=◌, ◌>>◌}

abbrev pub err_docker_client_provider_required : Text
err_docker_client_provider_required = codes "docker client provider is required"

abbrev pub err_image_puller_required : Text
err_image_puller_required = codes "image puller is required"

abbrev pub err_pending_store_required : Text
err_pending_store_required = codes "pending store is required"

abbrev pub err_self_updater_required : Text
err_self_updater_required = codes "self-update requires a SelfUpdater"

abbrev pub err_self_update_container : Text
err_self_update_container = codes "self-update containers must use SelfUpdater"

abbrev pub err_nil_docker_client : Text
err_nil_docker_client = codes "docker client unavailable"

abbrev pub err_container_not_found : Text
err_container_not_found = codes "container not found"

-- The body of a function that begins a status update and defers its end. A blank ID has none.
unfoldable pub with_status : {A : Type 0} → (project : Bool) → Text → Action A → Action A
unfolding begin_status_update
with_status project id body = elim (begin_status_update id) [
  | none ↦ body
  | some (added, removed) ↦ do
    ask (Request.update_status project added true) (λ h. tt {0})
    a ← body
    ask (Request.update_status project removed false) (λ h. tt {0})
    pure a
]

module _ (config : Config) where
  unfoldable pub docker_client : Action (Result DockerClient)
  docker_client = elim config.docker_client_provider [
    | none ↦ pure (err err_docker_client_provider_required)
    | some provider ↦ do
      answer ← ask Request.docker_client provider
      elim answer [
        | err e ↦ pure (err e)
        | ok none ↦ pure (err err_nil_docker_client)
        | ok (some docker) ↦ pure (ok docker)
      ]
  ]

  unfoldable pub record_event : (phase id name : Text) → Action (Option Text)
  record_event phase id name = elim config.event_recorder [
    | none ↦ pure none
    | some recorder ↦
        let event : Event = record { phase = phase; resource_id = id; resource_name = name } in
        ask (Request.record_event event) (λ h. recorder h event)
  ]

  unfoldable pub record_result : ResourceResult → Action (Option Text)
  record_result result = elim config.run_recorder [
    | none ↦ pure none
    | some recorder ↦ ask (Request.record_update_run result) (λ h. recorder h result)
  ]

  unfoldable pub notify : (id name image_ref old_image new_image : Text) → Action (Option Text)
  notify id name image_ref old_image new_image = elim config.notifier [
    | none ↦ pure none
    | some notifier ↦
        let notification : Notification = record {
          container_id = id;
          container_name = name;
          image_ref = image_ref;
          old_image = old_image;
          new_image = new_image;
        } in
        ask (Request.notify notification) (λ h. notifier h notification)
  ]

  unfoldable pub trigger_self_update :
      (id name new_image_ref : Text) → Map Text → Action (Option Text)
  unfolding record_event
  trigger_self_update id name new_image_ref labels = elim config.self_updater [
    | none ↦ pure (some err_self_updater_required)
    | some updater ↦
        let target : SelfUpdateTarget = record {
          container_id = id;
          container_name = name;
          instance_type =
              if LabelPolicy.is_agent config.label_policy labels
              then codes "agent"
              else codes "server";
          labels = labels;
          new_image_ref = new_image_ref;
        } in
        record_event (codes "self_update_trigger") id name
        >> ask (Request.trigger_self_update target) (λ h. updater h target)
  ]

  unfoldable pub is_self_update_candidate : Text → Map Text → Bool
  is_self_update_candidate id labels =
      if LabelPolicy.is_self_update_target config.label_policy labels
      then true
      else let self_id = trim_space config.self_container_id in
        not (is_empty self_id) && (has_prefix id self_id || has_prefix self_id id)
