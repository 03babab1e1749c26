-- ===== src/Lib.antt =====
-- Verification library of getarcaneapp/updater, a Go package that keeps Docker containers on the
-- newest images: it pulls the images of pending updates, works out which running containers they
-- concern and which of those depend on one another, and stops, removes and creates them again, by
-- docker compose or one by one, with a rollback where that fails.
--
-- The parts and the files that model them:
--
-- - Labels and LabelPolicy: labels/labels.go and labelpolicy.go, which containers may be touched.
--   Compose: internal/compose/compose.go. A Go map is a list of entries, walked in the list's
--   order, which stands for whatever order Go chooses.
-- - Refs, Digest, RegistryHost: refs/reference.go, digest/digest.go and
--   internal/registryhost/registryhost.go, one spelling for each image. The parsers of other
--   packages are the fields of the record Libraries and may answer anything.
-- - Types and Results: types.go, constants.go and results.go. MemoryStore: memory_store.go.
-- - Status: status.go. `next_snapshot` is one turn of `updateStatusSnapshot`; Status.Race runs any
--   number of its calls as a step relation over a versioned pointer, with a load, a swap that
--   succeeds only on the version that was loaded, and a retry.
-- - Deps: internal/deps/sorter.go. The state of a `ContainerSorter` is passed through; `visit`
--   recurs on fuel, and `run_sort` gives one unit more than there are containers. Each nested
--   visit marks a container that was not marked, so that is enough (Deps.Fuel).
-- - Docker and Ports: the records of Docker's API, and config.go and ports.go. Code that calls
--   Docker or the host application is an `Action`: it is run on the requests made so far, and adds
--   its own. Each port is a function of these requests to its answer, errors included. So other
--   programs may change Docker's state between two requests, and deadlines show as errors.
-- - Hooks: hooks.go and `dockerClient` of apply.go. Compat: internal/compat, the differences
--   between Engine API versions. Match: internal/match/matching.go. DigestCheck:
--   internal/digestcheck/digestcheck.go.
-- - Container: container.go. Container.Settings has what a container is created with again,
--   Container.Rebuild creates it, or its predecessor where that fails, and Container.Update is
--   `UpdateContainer`.
-- - Restart: restart.go, restart_helpers.go and compose_groups.go. Restart.Scan finds the
--   containers, Restart.Sequence orders them, Restart.Groups collects compose services, and
--   Restart.Execute carries the plans out: compose services at once (Restart.Dispatch), standalone
--   containers together (Restart.Standalone), and the triggers of self-updates at the very end.
--   `propagate_rounds` takes one round more than there are containers: a round that goes on marks
--   a container that was not marked (Restart.Closure).
-- - Apply: apply.go. `apply_pending` is `ApplyPending`: it reads the pending records, makes a plan
--   for each image in use, pulls, restarts through Restart, and clears the records.
-- - Service: updater.go and the checks of errors.go. `new` is `New`: it fills in the default ports,
--   validates the configuration and notes whether the provider is its own.
-- - Provider: `DockerClient` of defaults.go. A call is a data type of its places, and a step is one
--   atomic operation on the pointer or one call of Docker's client package with its answer as the
--   input; a schedule is a list of steps of any of the calls.
-- - Defaults: default_auth.go and the other ports of defaults.go. Defaults.Ports has `PullImage`
--   and `ImageDigest`, Defaults.Auth the credentials from Docker's configuration.
-- - Registry: registry/registry_http.go. Registry.Fetch has the requests, Registry.Challenge the
--   parser of the challenges and Registry.RateLimit that of the quota. Go's packages for HTTP,
--   URLs, base64 and JSON are the fields of HttpLibraries and the client.
-- - ComposeUpdater: compose_updater.go. ComposeUpdater.Update has the operations,
--   ComposeUpdater.Output the cut of the output in bytes.
-- - Common: lists, options and texts. A text is a list of code points; the functions of Go's
--   package strings are exact on what the program asks of them (Common.Strings says where letters
--   beyond ASCII are left as they are). Tests: the theorems at concrete inputs.
--
-- Counters are natural numbers: a run would need more than 2 ^ 63 items to overflow one. Pointers
-- that may be nil are options, and copies made only against aliasing are equal to what they copy.
--
-- Left out: log lines, clock times and the metadata of events; the options with which Docker's
-- client is opened, the reading of Docker's configuration, and the run of the docker command,
-- which are parameters; a provider that answers a nil client, at which the compose updater and the
-- image puller would panic.
pub mod Apply
pub mod Common
pub mod Compat
pub mod Compose
pub mod ComposeUpdater
pub mod Container
pub mod Defaults
pub mod Deps
pub mod Digest
pub mod DigestCheck
pub mod Docker
pub mod Hooks
pub mod LabelPolicy
pub mod Labels
pub mod Libraries
pub mod Match
pub mod MemoryStore
pub mod Ports
pub mod Provider
pub mod Refs
pub mod Registry
pub mod RegistryHost
pub mod Restart
pub mod Results
pub mod Service
pub mod Status
pub mod Tests
pub mod Types
