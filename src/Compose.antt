-- ===== src/Compose.antt =====
-- internal/compose/compose.go: the labels by which Docker Compose marks its containers.
-- `labels[key]` of a missing key is the empty text.
use updater.Common.{
  none, some, List, [], ◌∷◌, if◌then◌else◌, Text, codes, is_empty, trim_space, split, Map, lookup,
}

abbrev pub project_label_key : Text
project_label_key = codes "com.docker.compose.project"

abbrev pub service_label_key : Text
service_label_key = codes "com.docker.compose.service"

abbrev pub working_dir_label_key : Text
working_dir_label_key = codes "com.docker.compose.project.working_dir"

abbrev pub config_files_label_key : Text
config_files_label_key = codes "com.docker.compose.project.config_files"

unfoldable pub label_or_empty : Map Text → Text → Text
unfolding lookup
label_or_empty labels key = elim (lookup labels key) [ none ↦ [] | some value ↦ value ]

unfoldable pub project_label : Map Text → Text
unfolding trim_space label_or_empty codes
project_label labels = trim_space (label_or_empty labels project_label_key)

unfoldable pub service_label : Map Text → Text
unfolding trim_space label_or_empty codes
service_label labels = trim_space (label_or_empty labels service_label_key)

unfoldable pub working_dir_label : Map Text → Text
unfolding trim_space label_or_empty codes
working_dir_label labels = trim_space (label_or_empty labels working_dir_label_key)

-- The loop that keeps the trimmed parts that are not empty.
unfoldable pub trimmed_parts : List Text → List Text
unfolding trim_space is_empty
trimmed_parts [] = []
trimmed_parts (part ∷ parts) =
    let part' = trim_space part in
    if is_empty part' then trimmed_parts parts else part' ∷ trimmed_parts parts

unfoldable pub config_files_label : Map Text → List Text
unfolding trim_space label_or_empty codes is_empty split trimmed_parts
config_files_label labels =
    let raw = trim_space (label_or_empty labels config_files_label_key) in
    if is_empty raw then [] else trimmed_parts (split raw b',')
