-- ===== src/ComposeUpdater/Commands.antt =====
-- The requests of the compose updater.
use updater.Common.{
  ◌≡◌, refl, ap, ◌∙◌, ◌≢◌, inl, inr, false, Option, List, [], ◌∷◌, arith, Bool-cases, Result, ok,
  err, Text, ◌==◌, eq_iff, is_empty, is_empty_iff, trim_space,
}
use updater.Docker.{Summary}
use updater.Compose.{project_label, trimmed_parts}
use updater.Ports.{
  Request, History, DockerClient, Ensures, Any, Ensures-pure, Ensures-ask, Ensures-bind,
}
use updater.ComposeUpdater.Firsts.{first_of_each, normalize_compose_services-first_of_each}
use updater.ComposeUpdater.Update.{
  ProjectMetadata, project_filters, metadata_of, find_project, listed_project, compose_args,
  list_project, resolve_project_metadata, run_compose, update_resolved, update_services,
}

-- Where the project's settings come from: a container labelled with its name.
abbrev pub IsFound : Text → Result ProjectMetadata → Type 0
IsFound name (err e) = Unit
IsFound name (ok metadata) =
    (c : Summary) × (project_label c.labels ≡ name) × (metadata ≡ metadata_of name c)

find_project-IsFound : (name : Text) (cs : List Summary) → IsFound name (find_project name cs)
unfolding find_project
find_project-IsFound name [] = tt
find_project-IsFound name (c ∷ cs) = elim (Bool-cases (project_label c.labels == name)) [
  | inl e ↦ rw (find_project, e) (c, (eq_iff _ _).0 e, refl)
  | inr e ↦ rw (find_project, e) (find_project-IsFound name cs)
]

listed_project-IsFound :
    (name : Text) (listed : Result (List Summary)) → IsFound name (listed_project name listed)
unfolding listed_project
listed_project-IsFound name (err e) = tt
listed_project-IsFound name (ok []) = tt
listed_project-IsFound name (ok (c ∷ cs)) = find_project-IsFound name (c ∷ cs)

module _ (project_id : Text) (services : List Text) where
  -- The command that recreates the services, each named once and none blank, of the project, in
  -- the project's directory and with its configuration files; there is at least one service.
  abbrev pub IsUpdate : Text → List Text → Type 0
  IsUpdate dir args =
      let named = first_of_each (trimmed_parts services) in
      (c : Summary) × (project_label c.labels ≡ trim_space project_id)
      × (named ≢ [])
      × (dir ≡ ProjectMetadata.working_dir (metadata_of (trim_space project_id) c))
      × (args ≡ compose_args (metadata_of (trim_space project_id) c) named)

  -- The requests of an update: besides the command only the client and the project's containers
  -- are asked for.
  abbrev pub IsUpdateRequest : Request → Type 0
  IsUpdateRequest Request.docker_client = trim_space project_id ≢ []
  IsUpdateRequest (Request.container_list options) =
      options ≡ project_filters (trim_space project_id)
  IsUpdateRequest (Request.docker_command dir args) = IsUpdate dir args
  IsUpdateRequest _ = ⊥

  module _ (provider : History → Result DockerClient) where
    resolve_project_metadata-Ensures :
        Ensures IsUpdateRequest
          (IsFound (trim_space project_id))
          (resolve_project_metadata provider project_id)
    unfolding resolve_project_metadata
    resolve_project_metadata-Ensures = elim (Bool-cases (is_empty (trim_space project_id))) [
      | inl e ↦ rw e (Ensures-pure _ tt)
      | inr e ↦ rw e (Ensures-bind (Ensures-ask {Q = Any} _ _ (ne e) (λ h. tt)) (λ a q. listed a))
    ]
      where
        ne : is_empty (trim_space project_id) ≡ false → trim_space project_id ≢ []
        ne e f = ground (arith, is_empty_iff (trim_space project_id))

        listed :
            (a : Result DockerClient)
            → Ensures IsUpdateRequest
                (IsFound (trim_space project_id))
                (list_project provider (trim_space project_id) a)
        listed (err e) = unfold list_project in Ensures-pure _ tt
        listed (ok docker) =
            unfold list_project in
            Ensures-bind (Ensures-ask {Q = Any} _ _ refl (λ h. tt))
              (λ a q. Ensures-pure _ (listed_project-IsFound (trim_space project_id) a))

    module _ (run : History → Text → List Text → Text × Option Text) where
      run_compose-Ensures :
          (named : List Text) (metadata : ProjectMetadata)
          → named ≡ first_of_each (trimmed_parts services)
          → IsFound (trim_space project_id) (ok metadata)
          → Ensures IsUpdateRequest Any (run_compose provider run named metadata)
      unfolding run_compose
      run_compose-Ensures [] metadata e found = Ensures-pure _ tt
      run_compose-Ensures (s ∷ named) metadata e (c, labelled, m) =
          Ensures-bind
            (Ensures-ask {Q = Any} _ _
              (
                c,
                labelled,
                (λ f. cc (e ∙ f)),
                ap (λ x. ProjectMetadata.working_dir x) m,
                rw (m, e) refl,
              )
              (λ h. tt))
            (λ a q. Ensures-pure _ tt)

      -- An update of a project's services asks for nothing but the client, the containers of the
      -- project, and the command that recreates the services given, trimmed, each once, none
      -- blank, at least one, without their dependencies, under the name, in the directory and
      -- with the files of a container labelled with the project's name.
      pub update_services-IsUpdate :
          Ensures IsUpdateRequest Any (update_services provider run project_id services)
      unfolding update_services
      update_services-IsUpdate = Ensures-bind resolve_project_metadata-Ensures update
        where
          update :
              (found : Result ProjectMetadata)
              → IsFound (trim_space project_id) found
              → Ensures IsUpdateRequest Any (update_resolved provider run services found)
          update (err e) found = unfold update_resolved in Ensures-pure _ tt
          update (ok metadata) found =
              unfold update_resolved in
              run_compose-Ensures _ metadata (normalize_compose_services-first_of_each services).0
                found
