-- ===== src/Container/Quiet.antt =====
-- The requests of a recreation: while the container is stopped and removed nothing is created, and
-- afterwards nothing is stopped.
use updater.Common.{Option, none, some, Text, codes}
use updater.Libraries.{Libraries}
use updater.Docker.{Summary, InspectResponse}
use updater.Hooks.{record_event}
use updater.Hooks.Reading.{IsStopping}
use updater.Container.Settings.{container_summary_name}
use updater.Container.Rebuild.{
  stop_and_remove_standalone_container, finish_or_rollback, create_start_or_rollback,
}
use updater.Container.Cleanup.{Free, create_and_start-Free, remove_failed-Free, rollback-Free}
use updater.Ports.{
  DockerClient, Config, Ensures, Any, Ensures-pure, Ensures-ask, Ensures-bind, Ensures-then,
  Ensures-Option,
}

module _ (lib : Libraries) (config : Config) (docker : DockerClient) where
  event-Stopping :
      (phase id name : Text) → Ensures IsStopping Any (record_event config phase id name)
  unfolding record_event
  event-Stopping phase id name =
      Ensures-Option config.event_recorder (Ensures-pure _ tt) (λ r. Ensures-ask _ _ tt (λ h. tt))

  pub stop_and_remove-Ensures :
      (c : Summary) (inspect : InspectResponse)
      → Ensures IsStopping Any (stop_and_remove_standalone_container lib config docker c inspect)
  unfolding stop_and_remove_standalone_container
  stop_and_remove-Ensures c inspect =
      Ensures-bind (Ensures-ask {Q = Any} _ _ tt (λ h. tt)) (λ stopped q.
        Ensures-Option stopped
          (Ensures-bind
            (Ensures-then (event-Stopping (codes "container_stop") c.id (container_summary_name c))
              (Ensures-ask {Q = Any} _ _ tt (λ h. tt)))
            (λ removed k.
              Ensures-Option removed
                (Ensures-then
                  (event-Stopping (codes "container_delete") c.id (container_summary_name c))
                  (Ensures-pure _ tt))
                (λ e. Ensures-pure _ tt)))
          (λ e. Ensures-pure _ tt))

  finish_or_rollback-Free :
      (c : Summary) (inspect : InspectResponse) (made : Text × Option Text)
      → Free (finish_or_rollback lib config docker c inspect made)
  unfolding finish_or_rollback
  finish_or_rollback-Free c inspect (id, none) = Ensures-pure _ tt
  finish_or_rollback-Free c inspect (id, some e) =
      Ensures-then (remove_failed-Free lib config docker id (container_summary_name c))
        (Ensures-bind (rollback-Free lib config docker c inspect) (λ a q. Ensures-pure _ tt))

  pub create_start_or_rollback-Free :
      (c : Summary) (inspect : InspectResponse) (ref : Text)
      → Free (create_start_or_rollback lib config docker c inspect ref)
  unfolding create_start_or_rollback
  create_start_or_rollback-Free c inspect ref =
      Ensures-bind (create_and_start-Free lib config docker c inspect ref)
        (λ made q. finish_or_rollback-Free c inspect made)
