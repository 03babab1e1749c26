-- ===== src/Hooks/Reading.antt =====
-- Code that only reads.
use updater.Common.{Bool, true, false, Text}
use updater.Types.{ResourceResult}
use updater.Status.{begin_status_update}
use updater.Hooks.{docker_client, record_result, with_status}
use updater.Ports.{
  Request, Config, Action, Ensures, Any, Ensures-pure, Ensures-ask, Ensures-bind, Ensures-then,
  Ensures-Option, Ensures-Result,
}

-- The requests that change nothing at Docker, in the pending records or at the host application.
-- The recorder of results is told what was found.
abbrev pub IsReading : Request → Type 0
IsReading (Request.container_stop id signal) = ⊥
IsReading (Request.container_remove id force) = ⊥
IsReading (Request.container_create options) = ⊥
IsReading (Request.container_start id) = ⊥
IsReading (Request.network_connect network id settings) = ⊥
IsReading (Request.pull_image ref) = ⊥
IsReading (Request.docker_command dir args) = ⊥
IsReading (Request.image_pull ref auth) = ⊥
IsReading (Request.clear_image_update_record r) = ⊥
IsReading (Request.update_services project services) = ⊥
IsReading (Request.trigger_self_update target) = ⊥
IsReading (Request.notify notification) = ⊥
IsReading (Request.record_event event) = ⊥
IsReading _ = Unit

-- The requests other than the trigger of a self-update.
abbrev pub IsNoTrigger : Request → Type 0
IsNoTrigger (Request.trigger_self_update target) = ⊥
IsNoTrigger _ = Unit

-- The requests by which containers may be stopped and removed, but none is created or started.
abbrev pub IsStopping : Request → Type 0
IsStopping (Request.container_create options) = ⊥
IsStopping (Request.container_start id) = ⊥
IsStopping (Request.trigger_self_update target) = ⊥
IsStopping _ = Unit

-- The requests by which containers may be created and started, but none is stopped.
abbrev pub IsCreating : Request → Type 0
IsCreating (Request.container_stop id signal) = ⊥
IsCreating (Request.trigger_self_update target) = ⊥
IsCreating _ = Unit

pub IsNoTrigger-of_stopping : (r : Request) → IsStopping r → IsNoTrigger r
IsNoTrigger-of_stopping (Request.trigger_self_update target) h = h
IsNoTrigger-of_stopping _ h = tt

pub IsNoTrigger-of_creating : (r : Request) → IsCreating r → IsNoTrigger r
IsNoTrigger-of_creating (Request.trigger_self_update target) h = h
IsNoTrigger-of_creating _ h = tt

pub docker_client-Ensures : (config : Config) → Ensures IsReading Any (docker_client config)
unfolding docker_client
docker_client-Ensures config =
    Ensures-Option config.docker_client_provider (Ensures-pure _ tt) (λ p.
      Ensures-bind (Ensures-ask {Q = Any} Request.docker_client p tt (λ h. tt)) (λ a q.
        Ensures-Result a (λ e. Ensures-pure _ tt)
          (λ o. Ensures-Option o (Ensures-pure _ tt) (λ d. Ensures-pure _ tt))))

pub record_result-Ensures :
    (config : Config) (result : ResourceResult)
    → Ensures IsReading Any (record_result config result)
unfolding record_result
record_result-Ensures config result =
    Ensures-Option config.run_recorder (Ensures-pure _ tt) (λ p. Ensures-ask _ _ tt (λ h. tt))

pub with_status-Ensures :
    {A : Type 0} {P : Request → Type 0} {Q : A → Type 0} (project : Bool) (id : Text)
    {body : Action A}
    → ((id : Text) (add : Bool) → P (Request.update_status project id add))
    → Ensures P Q body
    → Ensures P Q (with_status project id body)
unfolding with_status
with_status-Ensures project id p q = Ensures-Option (begin_status_update id) q (λ (added, removed).
    Ensures-then (Ensures-ask {Q = Any} _ _ (p added true) (λ h. tt)) (
      Ensures-bind q (λ a k.
        Ensures-then (Ensures-ask {Q = Any} _ _ (p removed false) (λ h. tt)) (Ensures-pure a k))))
