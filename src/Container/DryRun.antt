-- ===== src/Container/DryRun.antt =====
-- A dry run of one container changes nothing.
use updater.Common.{◌⊎◌, Bool, true, false, not, ◌&&◌, ◌||◌, [], In, Text, is_empty}
use updater.Libraries.{Libraries}
use updater.Docker.{Summary, InspectResponse}
use updater.Types.{Options}
use updater.LabelPolicy
use updater.Refs.{pullable_image_ref, normalize_image_update_ref}
use updater.Results.{labels_from_inspect}
use updater.Compose.{project_label}
use updater.Hooks.{is_self_update_candidate}
use updater.Hooks.Reading.{IsReading, docker_client-Ensures, with_status-Ensures}
use updater.Container.Update.{
  config_image_of, resolve_pull_ref, update_inspected, update_target, update_container,
}
use updater.Ports.{
  Request, History, DockerClient, Config, Ensures, Ensures-requests, Any, Ensures-pure, Ensures-ask,
  Ensures-bind, Ensures-Result, Ensures-List, Ensures-if,
}

abbrev dry : Bool → Options
dry force = record { force = force; dry_run = true }

module _ (lib : Libraries) (config : Config) where
  resolve_pull_ref-Ensures :
      (docker : DockerClient) (c : Summary) (inspect : InspectResponse)
      → Ensures IsReading Any (resolve_pull_ref lib config docker c inspect)
  unfolding resolve_pull_ref
  resolve_pull_ref-Ensures docker c inspect =
      Ensures-if
        (not (is_empty (pullable_image_ref lib c.image (config_image_of lib config inspect) []))
          || is_empty inspect.image)
        (Ensures-pure _ tt)
        (Ensures-bind (Ensures-ask {Q = Any} _ _ tt (λ h. tt))
          (λ a q. Ensures-Result a (λ e. Ensures-pure _ tt) (λ image. Ensures-pure _ tt)))

  update_inspected-Ensures :
      (force : Bool) (docker : DockerClient) (c : Summary) (inspect : InspectResponse)
      → Ensures IsReading Any (update_inspected lib config docker (dry force) c inspect)
  unfolding update_inspected
  update_inspected-Ensures force docker c inspect =
      let labels = labels_from_inspect inspect in
      Ensures-if (LabelPolicy.is_update_disabled config.label_policy labels) (Ensures-pure _ tt) (
        Ensures-if
          (LabelPolicy.is_swarm_task config.label_policy labels
            && not (is_self_update_candidate config c.id labels))
          (Ensures-pure _ tt)
          (Ensures-bind (resolve_pull_ref-Ensures docker c inspect) (λ image_ref q.
            Ensures-if (is_empty (normalize_image_update_ref lib image_ref)) (Ensures-pure _ tt)
              (Ensures-pure _ tt))))

  update_target-Ensures :
      (force : Bool) (docker : DockerClient) (c : Summary)
      → Ensures IsReading Any (update_target lib config docker (dry force) c)
  unfolding update_target
  update_target-Ensures force docker c =
      Ensures-bind (Ensures-ask {Q = Any} _ _ tt (λ h. tt)) (λ a q.
        Ensures-Result a (λ e. Ensures-pure _ tt)
          (λ inspect.
            with_status-Ensures false c.id (λ id add. tt)
              (with_status-Ensures true (project_label (labels_from_inspect inspect)) (λ id add. tt)
                (update_inspected-Ensures force docker c inspect))))

  update_container-Ensures :
      (id : Text) (force : Bool)
      → Ensures IsReading Any (update_container lib config id (dry force))
  unfolding update_container
  update_container-Ensures id force = Ensures-bind (docker_client-Ensures config) (λ client q.
      Ensures-Result client (λ e. Ensures-pure _ tt)
        (λ docker. Ensures-bind (Ensures-ask {Q = Any} _ _ tt (λ h. tt)) (λ listed k.
          Ensures-Result listed (λ e. Ensures-pure _ tt)
            (λ cs. Ensures-List cs (Ensures-pure _ tt) (λ c more.
              Ensures-bind (update_target-Ensures force docker c) (λ out l. Ensures-pure _ tt))))))

-- A dry run of `UpdateContainer`, forced or not, only reads: whatever the ports answer, it makes no
-- request that changes a container, an image, a pending record or the host application.
pub update_container-IsReading :
    (lib : Libraries) (config : Config) (id : Text) (force : Bool) (h : History) (r : Request)
    → In r (update_container lib config id (record { force = force; dry_run = true }) h).1
    → In r h ⊎ IsReading r
update_container-IsReading lib config id force h r m =
    Ensures-requests (update_container-Ensures lib config id force) h r m
