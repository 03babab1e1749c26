-- ===== src/ComposeUpdater/Services.antt =====
-- The services of a command line: `normalizeComposeServices`.
use updater.Common.{◌||◌, List, [], ◌∷◌, ◌++◌, if◌then◌else◌, Text, is_empty, trim_space, elem}

-- The loop of `normalizeComposeServices`; the keys of `seen` are a list.
unfoldable pub normalize_services : (seen out services : List Text) → List Text
normalize_services seen out [] = out
normalize_services seen out (service ∷ services) =
    let name = trim_space service in
    let skip = is_empty name || elem name seen in
    normalize_services (if skip then seen else name ∷ seen) (if skip then out else out ++ name ∷ [])
      services

unfoldable pub normalize_compose_services : List Text → List Text
unfolding normalize_services
normalize_compose_services services = normalize_services [] [] services
