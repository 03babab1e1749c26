-- ===== src/Container/Rollback.antt =====
-- A container that cannot be created again.
use updater.Common.{◌≡◌, refl, inl, inr, Option, none, some, Option-cases, Text, codes, Map}
use updater.Libraries.{Libraries}
use updater.Docker.{Summary, InspectResponse, HostConfig}
use updater.Hooks.{record_event}
use updater.Types.{Event}
use updater.Container.Settings.{container_summary_name}
use updater.Container.Rebuild.{
  start_error, start_created, start_made, make_prepared, create_and_start_standalone_container,
  finish_or_rollback, create_start_or_rollback,
}
use updater.Ports.{History, DockerClient, Config, ◌>>=◌, ◌>>◌}

-- An event recorder that accepts all events but those of one phase.
abbrev pub Refuses : Config → Text → Text → Type 0
Refuses config phase e =
    (recorder : History → Event → Option Text) × (config.event_recorder ≡ some recorder)
    × ((h : History) (id name : Text)
        → recorder h (record { phase = phase; resource_id = id; resource_name = name }) ≡ some e)

abbrev IsError : Option Text → Type 0
IsError failure = (f : Text) × (failure ≡ some f)

record_event-refused :
    (config : Config) (phase e id name : Text) (h : History)
    → Refuses config phase e
    → (record_event config phase id name h).0 ≡ some e
unfolding record_event
record_event-refused config phase e id name h (recorder, has, refuses) =
    rw (has, record_event) (refuses h id name)

start_created-refused :
    (lib : Libraries) (config : Config) (docker : DockerClient) (e id name : Text) (h : History)
    → Refuses config (codes "container_update") e
    → IsError (start_created lib config docker id name h).0
unfolding start_created start_error ◌>>=◌ ◌>>◌
start_created-refused lib config docker e id name h refuses =
    let h1 = (record_event config (codes "container_create") id name h).1 in
    elim (Option-cases (start_error lib config docker id h1).0) [
      | inr (f, failed) ↦ (f, rw (start_created, failed) refl)
      | inl fine ↦ (e, rw (start_created, fine) (record_event-refused config _ e id name _ refuses))
    ]

start_made-refused :
    (lib : Libraries) (config : Config) (docker : DockerClient) (cnt : Summary) (e : Text)
    (made : Text × Option Text) (h : History)
    → Refuses config (codes "container_update") e
    → IsError (start_made lib config docker cnt made h).0.1
unfolding start_made ◌>>=◌ start_created
start_made-refused lib config docker cnt e (id, some f) h refuses = (_, refl)
start_made-refused lib config docker cnt e (id, none) h refuses =
    start_created-refused lib config docker e id (container_summary_name cnt) h refuses

make_prepared-refused :
    (lib : Libraries) (config : Config) (docker : DockerClient) (cnt : Summary)
    (inspect : InspectResponse) (e ref : Text) (image : Text × Map Text)
    (host : Option HostConfig × Option Text) (h : History)
    → Refuses config (codes "container_update") e
    → IsError (make_prepared lib config docker cnt inspect ref image host h).0.1
unfolding make_prepared ◌>>=◌ ◌>>◌
make_prepared-refused lib config docker cnt inspect e ref image (host, some f) h refuses = (_, refl)
make_prepared-refused lib config docker cnt inspect e ref image (host, none) h refuses =
    start_made-refused lib config docker cnt e _ _ refuses

create_and_start-refused :
    (lib : Libraries) (config : Config) (docker : DockerClient) (cnt : Summary)
    (inspect : InspectResponse) (e ref : Text) (h : History)
    → Refuses config (codes "container_update") e
    → IsError (create_and_start_standalone_container lib config docker cnt inspect ref h).0.1
unfolding create_and_start_standalone_container ◌>>=◌ ◌>>◌
create_and_start-refused lib config docker cnt inspect e ref h refuses =
    make_prepared-refused lib config docker cnt inspect e ref _ _ _ refuses

finish_or_rollback-IsError :
    (lib : Libraries) (config : Config) (docker : DockerClient) (cnt : Summary)
    (inspect : InspectResponse) (made : Text × Option Text) (h : History)
    → IsError made.1
    → IsError (finish_or_rollback lib config docker cnt inspect made h).0
unfolding finish_or_rollback ◌>>=◌ ◌>>◌
finish_or_rollback-IsError lib config docker cnt inspect (id, none) h (f, e) = cc
finish_or_rollback-IsError lib config docker cnt inspect (id, some g) h failed = (_, refl)

-- If the event recorder refuses every event of phase "container_update", the recreation of a
-- standalone container ends with an error, whatever Docker answers.
pub create_start_or_rollback-refused :
    (lib : Libraries) (config : Config) (docker : DockerClient) (cnt : Summary)
    (inspect : InspectResponse) (e ref : Text) (h : History)
    → Refuses config (codes "container_update") e
    → (f : Text) × ((create_start_or_rollback lib config docker cnt inspect ref h).0 ≡ some f)
unfolding create_start_or_rollback ◌>>=◌ ◌>>◌
create_start_or_rollback-refused lib config docker cnt inspect e ref h refuses =
    finish_or_rollback-IsError lib config docker cnt inspect _ _
      (create_and_start-refused lib config docker cnt inspect e ref h refuses)
