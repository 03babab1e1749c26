-- ===== src/Container/Cleanup.antt =====
-- A container whose recreation fails is removed again.
use updater.Common.{
  ◌≡◌, ◌≢◌, ◌⊎◌, Bool, true, false, Option, none, some, List, [], ◌∷◌, ◌++◌, In, Result, ok, err,
  Text, codes, is_empty, trim_space, Map, sort_texts,
}
use updater.Libraries.{Libraries}
use updater.Docker.{Summary, InspectResponse, HostConfig, Endpoints, CreateOptions}
use updater.Hooks.Reading.{IsCreating}
use updater.Hooks.{record_event}
use updater.Compat.{
  detect_api_version, container_create, prepare_create_options, connect_extra_networks,
  connect_names, names_of,
}
use updater.Compat.Engine.{prepare_recreate_host_config}
use updater.Container.Settings.{container_summary_name}
use updater.Container.Rebuild.{
  inspect_target_image, container_running, start_error, start_created, start_made, make_prepared,
  create_and_start_standalone_container, remove_failed_created_container,
  rollback_standalone_container,
}
use updater.Ports.{
  Request, History, DockerClient, Config, Action, pure, Ensures, Any, Ensures-pure, Ensures-ask,
  Ensures-bind, Ensures-then, Ensures-Option, Ensures-Result, Ensures-if,
}

-- No container is stopped, and no self-update is triggered.
abbrev pub Free : {A : Type 0} → Action A → Type 0
Free m = Ensures IsCreating Any m

detect-Free : (docker : DockerClient) → Free (detect_api_version (some docker))
unfolding detect_api_version
detect-Free docker =
    Ensures-if (is_empty (trim_space docker.client_version))
      (Ensures-bind (Ensures-ask {Q = Any} _ _ tt (λ h. tt))
        (λ a q. Ensures-Result a (λ e. Ensures-pure _ tt) (λ v. Ensures-pure _ tt)))
      (Ensures-pure _ tt)

prepare-Free :
    (docker : DockerClient) (host : Option HostConfig)
    → Free (prepare_recreate_host_config docker host)
unfolding prepare_recreate_host_config
prepare-Free docker none = Ensures-pure _ tt
prepare-Free docker (some host) = Ensures-bind (Ensures-ask {Q = Any} _ _ tt (λ h. tt)) (λ a q.
    Ensures-Result a (λ e. Ensures-pure _ tt)
      (λ v.
        Ensures-bind (Ensures-ask {Q = Any} _ _ tt (λ h. tt))
          (λ b k. Ensures-Result b (λ e. Ensures-pure _ tt) (λ i. Ensures-pure _ tt))))

connect_names-Free :
    (docker : DockerClient) (id : Text) (endpoints : Endpoints) (names : List Text)
    → Free (connect_names docker id endpoints names)
unfolding connect_names
connect_names-Free docker id endpoints [] = Ensures-pure _ tt
connect_names-Free docker id endpoints (name ∷ names) =
    Ensures-bind (Ensures-ask {Q = Any} _ _ tt (λ h. tt)) (λ a q.
      Ensures-Option a (connect_names-Free docker id endpoints names) (λ e. Ensures-pure _ tt))

connect-Free :
    (docker : DockerClient) (id : Text) (endpoints : Endpoints)
    → Free (connect_extra_networks docker id endpoints)
unfolding connect_extra_networks
connect-Free docker id endpoints =
    Ensures-if (is_empty (trim_space id)) (Ensures-pure _ tt)
      (connect_names-Free docker id endpoints (sort_texts (names_of endpoints)))

create-Free :
    (docker : DockerClient) (options : CreateOptions) (version : Text)
    → Free (container_create docker options version)
unfolding container_create
create-Free docker options version = Ensures-bind (Ensures-ask {Q = Any} _ _ tt (λ h. tt)) (λ a q.
    Ensures-Result a (λ e. Ensures-pure _ tt)
      (λ id.
        Ensures-bind (connect-Free docker id (prepare_create_options options version).1)
          (λ f k. Ensures-pure _ tt)))

pub event-Free : (config : Config) (phase id name : Text) → Free (record_event config phase id name)
unfolding record_event
event-Free config phase id name =
    Ensures-Option config.event_recorder (Ensures-pure _ tt) (λ r. Ensures-ask _ _ tt (λ h. tt))

module _ (lib : Libraries) (config : Config) (docker : DockerClient) where
  running-Free : (id : Text) → Free (container_running lib config docker id)
  unfolding container_running
  running-Free id = Ensures-bind (Ensures-ask {Q = Any} _ _ tt (λ h. tt)) (λ a q.
      Ensures-Result a (λ e. Ensures-pure _ tt)
        (λ i. Ensures-Option i.running (Ensures-pure _ tt) (λ b. Ensures-pure _ tt)))

  start_error-Free : (id : Text) → Free (start_error lib config docker id)
  unfolding start_error
  start_error-Free id = Ensures-bind (Ensures-ask {Q = Any} _ _ tt (λ h. tt)) (λ a q.
      Ensures-Option a (Ensures-pure _ tt)
        (λ e. Ensures-bind (running-Free id) (λ running k. by_running e running)))
    where
      by_running :
          (e : Text) (running : Result Bool)
          → Free (elim running [
            | err f ↦
                pure (some (codes "start: " ++ (e ++ (codes "; inspect after start error: " ++ f))))
            | ok false ↦ pure (some (codes "start: " ++ e))
            | ok true ↦ pure none
          ])
      by_running e (err f) = Ensures-pure _ tt
      by_running e (ok false) = Ensures-pure _ tt
      by_running e (ok true) = Ensures-pure _ tt

  start_created-Free : (id name : Text) → Free (start_created lib config docker id name)
  unfolding start_created
  start_created-Free id name = Ensures-then (event-Free config (codes "container_create") id name) (
      Ensures-bind (start_error-Free id) (λ a q.
        Ensures-Option a
          (Ensures-then (event-Free config (codes "container_start") id name)
            (event-Free config (codes "container_update") id name))
          (λ e. Ensures-pure _ tt)))

  start_made-Free :
      (c : Summary) (made : Text × Option Text) → Free (start_made lib config docker c made)
  unfolding start_made
  start_made-Free c (id, some e) = Ensures-pure _ tt
  start_made-Free c (id, none) =
      Ensures-bind (start_created-Free id (container_summary_name c)) (λ a q. Ensures-pure _ tt)

  make_prepared-Free :
      (c : Summary) (inspect : InspectResponse) (ref : Text) (image : Text × Map Text)
      (host : Option HostConfig × Option Text)
      → Free (make_prepared lib config docker c inspect ref image host)
  unfolding make_prepared
  make_prepared-Free c inspect ref image (host, some e) = Ensures-pure _ tt
  make_prepared-Free c inspect ref image (host, none) =
      Ensures-bind (detect-Free docker)
        (λ v q. Ensures-bind (create-Free docker _ v) (λ made k. start_made-Free c made))

  image-Free : (ref : Text) → Free (inspect_target_image lib config docker ref)
  unfolding inspect_target_image
  image-Free ref = Ensures-bind (Ensures-ask {Q = Any} _ _ tt (λ h. tt)) (λ a q.
      Ensures-Result a (λ e. Ensures-pure _ tt)
        (λ image. Ensures-Option image.config_labels (Ensures-pure _ tt) (λ ls. Ensures-pure _ tt)))

  pub create_and_start-Free :
      (c : Summary) (inspect : InspectResponse) (ref : Text)
      → Free (create_and_start_standalone_container lib config docker c inspect ref)
  unfolding create_and_start_standalone_container
  create_and_start-Free c inspect ref = Ensures-bind (image-Free ref) (λ image q.
      Ensures-bind (prepare-Free docker inspect.host_config)
        (λ host k. make_prepared-Free c inspect ref image host))

  pub remove_failed-Free :
      (id name : Text) → Free (remove_failed_created_container lib config docker id name)
  unfolding remove_failed_created_container
  remove_failed-Free id name = Ensures-if (is_empty (trim_space id)) (Ensures-pure _ tt) (
      Ensures-bind (Ensures-ask {Q = Any} _ _ tt (λ h. tt)) (λ a q.
        Ensures-Option a
          (Ensures-then (event-Free config (codes "container_cleanup") (trim_space id) name)
            (Ensures-pure _ tt))
          (λ e. Ensures-pure _ tt)))

  pub rollback-Free :
      (c : Summary) (inspect : InspectResponse)
      → Free (rollback_standalone_container lib config docker c inspect)
  unfolding rollback_standalone_container
  rollback-Free c inspect = Ensures-if (is_empty (trim_space inspect.image)) (Ensures-pure _ tt) (
      Ensures-bind (create_and_start-Free c inspect (trim_space inspect.image)) (λ made q.
        Ensures-Option made.1
          (Ensures-then
            (event-Free config (codes "container_rollback") made.0 (container_summary_name c))
            (Ensures-pure _ tt))
          (λ e.
            Ensures-then (remove_failed-Free made.0 (container_summary_name c))
              (Ensures-pure _ tt))))

  -- The outcome of an update, from that of the creation, `made`: it is a success and nothing more
  -- is asked; or it is an error, and a new container with an ID is asked to be removed by force.
  abbrev pub IsSettled : (Text × Option Text) × History → Option Text × History → Type 0
  IsSettled (made, h) (failure, after) =
      ((made.1 ≡ none) × (failure ≡ none) × (after ≡ h))
      ⊎ ((e f : Text) × (made.1 ≡ some e)
          × (failure ≡ some f)
          × (trim_space made.0 ≢ [] → In (Request.container_remove (trim_space made.0) true) after))
