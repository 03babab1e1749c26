-- ===== src/Tests/Defaults.antt =====
-- The theorems on the compose updater, on the provider of Docker's client and on the construction
-- of a service at concrete inputs.
use updater.Common.{
  ℕ, ◌+◌, ◌≤◌, ◌≡◌, refl, ◌⊎◌, inl, inr, Bool, true, false, Option, none, some, List, [], ◌∷◌, ◌++◌,
  leb, if◌then◌else◌, length, take, Distinct, ok, err, Text, codes, trim_space, text_functions,
}
use updater.Common.Int.{pos, negsuc, int_lt}
use updater.Compose.{trimmed_parts}
use updater.Ports.{Ensures, Any}
use updater.ComposeUpdater.Output.{
  bytes, utf8, take_bytes, truncate_at, truncate_compose_output, max_compose_error_output,
}
use updater.ComposeUpdater.Services.{normalize_compose_services}
use updater.ComposeUpdater.Bytes.{truncate_compose_output-bytes}
use updater.ComposeUpdater.Firsts.{first_of_each, normalize_compose_services-first_of_each}
use updater.ComposeUpdater.Update.{update_services}
use updater.ComposeUpdater.Commands.{IsUpdateRequest, update_services-IsUpdate}
use updater.Provider.Calls.{
  System, new_docker_client_provider, docker_client_call, close_call, run, step_at, step,
  publish_at, after_swap, after_load, after_unused, holds,
}
use updater.Provider.Sound.{IsSound, begun, new_provider-IsSound}
use updater.Service.Build.{DefaultPorts, Settings, Service, new, field_error}
use updater.Service.Complete.{IsComplete, new-cases}
use updater.Tests.Data.{docker, config}

truncate_compose_output-bytes_example :
    (bytes (truncate_compose_output (codes " failed\n")) ≡ (
      if leb (length (bytes (trim_space (codes " failed\n")))) max_compose_error_output
      then bytes (trim_space (codes " failed\n"))
      else take max_compose_error_output (bytes (trim_space (codes " failed\n")))
        ++ bytes (codes " (truncated)")))
    × (length (bytes (truncate_compose_output (codes " failed\n"))) ≤ max_compose_error_output + 12)
truncate_compose_output-bytes_example = truncate_compose_output-bytes (codes " failed\n")

-- A character of two bytes is cut.
cut_inside : truncate_at 2 (b'a' ∷ 0xe9 ∷ []) ≡ (b'a' ∷ 0x1100c3 ∷ []) ++ codes " (truncated)"
unfolding text_functions truncate_at bytes utf8 take_bytes
cut_inside = refl

abbrev services : List Text
services = codes " web" ∷ codes "" ∷ codes "db" ∷ codes "web " ∷ []

normalize_compose_services-first_of_each_example :
    (normalize_compose_services services ≡ first_of_each (trimmed_parts services))
    × Distinct (normalize_compose_services services)
normalize_compose_services-first_of_each_example = normalize_compose_services-first_of_each services

services_named : first_of_each (trimmed_parts services) ≡ codes "web" ∷ codes "db" ∷ []
unfolding text_functions trimmed_parts
services_named = refl

update_services-IsUpdate_example :
    Ensures
      (IsUpdateRequest (codes "shop") services)
      Any
      (update_services (λ h. ok docker) (λ h dir args. ([], none)) (codes "shop") services)
update_services-IsUpdate_example =
    update_services-IsUpdate (codes "shop") services (λ h. ok docker) (λ h dir args. ([], none))

-- Two calls open a client each, and the one that comes second shuts its own.
abbrev two_calls : List Bool
two_calls = false ∷ false ∷ true ∷ []

abbrev schedule : List (ℕ × Option Text)
schedule =
    (0, none)
    ∷ (1, none)
    ∷ (0, none)
    ∷ (1, none)
    ∷ (1, none)
    ∷ (0, none)
    ∷ (0, none)
    ∷ (1, none)
    ∷ (1, none)
    ∷ (1, none)
    ∷ []

abbrev new_system : System
new_system = record { provider = new_docker_client_provider; calls = begun two_calls }

second_shuts : (System.provider (run new_system schedule)).shut ≡ 1 ∷ []
unfolding run step_at step publish_at after_swap after_load after_unused holds docker_client_call
    close_call
second_shuts = refl

new_provider-IsSound_example : IsSound (run new_system schedule)
new_provider-IsSound_example = new_provider-IsSound two_calls schedule

abbrev defaults : DefaultPorts
defaults = record {
  docker_client_provider = λ h. ok (some docker);
  image_puller = λ provider h ref. none;
  pending_store = record {
    pending_image_updates = λ h. ok [];
    clear_image_update_record = λ h r. none;
  };
  registry_digest_resolver = λ h ref. err (codes "offline");
  project_updater = λ provider. record {
    project_by_compose_name = λ h name. err (codes "none");
    update_services = λ h project services. none;
  };
}

abbrev settings : Settings
settings = record { config = config; operation_timeout = negsuc 4 }

new-cases_example :
    ((int_lt settings.operation_timeout (pos 0) ≡ true)
      × (new defaults settings
          ≡ inl (field_error (codes "OperationTimeout") (codes "must not be negative"))))
    ⊎ ((service : Service) × (int_lt settings.operation_timeout (pos 0) ≡ false)
        × (new defaults settings ≡ inr service)
        × IsComplete defaults settings service)
new-cases_example = new-cases defaults settings
