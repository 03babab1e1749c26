-- ===== src/Apply/Reading.antt =====
-- Code that only reads: what a run asks before it pulls anything.
use updater.Common.{not, List, [], ◌∷◌, Text, is_empty, trim_space}
use updater.Libraries.{Libraries}
use updater.Docker.{Summary, InspectResponse}
use updater.Hooks.Reading.{IsReading, docker_client-Ensures}
use updater.DigestCheck.{Checker, list_ids, get_image_ids_for_ref}
use updater.Restart.{excluded_container_set, should_skip_summary}
use updater.Apply.Plans.{
  normalized_tags_for_container, used_by, used_by_all, used_images, config_disabled,
}
use updater.Refs.{normalize_image_update_ref}
use updater.Ports.{
  DockerClient, Config, Ensures, Any, Ensures-pure, Ensures-ask, Ensures-bind, Ensures-Option,
  Ensures-Result, Ensures-if,
}

module _ (lib : Libraries) where
  excluded_container_set-Ensures :
      (config : Config) → Ensures IsReading Any (excluded_container_set lib config)
  unfolding excluded_container_set
  excluded_container_set-Ensures config = Ensures-Option config.settings (Ensures-pure _ tt) (λ p.
      Ensures-bind (Ensures-ask {Q = Any} _ p tt (λ h. tt))
        (λ a q. Ensures-Result a (λ e. Ensures-pure _ tt) (λ ns. Ensures-pure _ tt)))

  list_ids-Ensures :
      (docker : DockerClient) (ref : Text) → Ensures IsReading Any (list_ids lib docker ref)
  unfolding list_ids
  list_ids-Ensures docker ref =
      Ensures-bind (Ensures-ask {Q = Any} _ _ tt (λ h. tt))
        (λ a q. Ensures-Result a (λ e. Ensures-pure _ tt) (λ imgs. Ensures-pure _ tt))

  pub get_image_ids-Ensures :
      (c : Checker) (ref : Text) → Ensures IsReading Any (get_image_ids_for_ref lib c ref)
  unfolding get_image_ids_for_ref
  get_image_ids-Ensures c ref = Ensures-Option c.docker_client (Ensures-pure _ tt) (λ docker.
      Ensures-bind (Ensures-ask {Q = Any} _ _ tt (λ h. tt)) (λ a q.
        Ensures-Result a (λ e. list_ids-Ensures docker ref)
          (λ inspect.
            Ensures-if (is_empty (trim_space inspect.id)) (list_ids-Ensures docker ref)
              (Ensures-pure _ tt))))

  normalized_tags-Ensures :
      (docker : DockerClient) (inspect : InspectResponse)
      → Ensures IsReading Any (normalized_tags_for_container lib docker inspect)
  unfolding normalized_tags_for_container
  normalized_tags-Ensures docker inspect =
      Ensures-bind (Ensures-ask {Q = Any} _ _ tt (λ h. tt)) (λ a q. Ensures-pure _ tt)

  used_by-Ensures :
      (config : Config) (docker : DockerClient) (excluded : List Text) (c : Summary)
      → Ensures IsReading Any (used_by lib config docker excluded c)
  unfolding used_by
  used_by-Ensures config docker excluded c =
      Ensures-if (should_skip_summary c excluded [] config.label_policy) (Ensures-pure _ tt) (
        Ensures-if (not (is_empty (normalize_image_update_ref lib c.image))) (Ensures-pure _ tt) (
          Ensures-bind (Ensures-ask {Q = Any} _ _ tt (λ h. tt)) (λ a q.
            Ensures-Result a (λ e. Ensures-pure _ tt)
              (λ inspect.
                Ensures-if (config_disabled lib config inspect.config) (Ensures-pure _ tt)
                  (normalized_tags-Ensures docker inspect)))))

  used_by_all-Ensures :
      (config : Config) (docker : DockerClient) (excluded : List Text) (cs : List Summary)
      → Ensures IsReading Any (used_by_all lib config docker excluded cs)
  unfolding used_by_all
  used_by_all-Ensures config docker excluded [] = Ensures-pure _ tt
  used_by_all-Ensures config docker excluded (c ∷ cs) =
      Ensures-bind (used_by-Ensures config docker excluded c) (λ refs q.
        Ensures-bind (used_by_all-Ensures config docker excluded cs) (λ more k. Ensures-pure _ tt))

  pub used_images-Ensures : (config : Config) → Ensures IsReading Any (used_images lib config)
  unfolding used_images
  used_images-Ensures config =
      Ensures-Option config.used_image_collector
        (Ensures-bind (docker_client-Ensures config) (λ client q.
          Ensures-Result client (λ e. Ensures-pure _ tt)
            (λ docker. Ensures-bind (excluded_container_set-Ensures config) (λ excluded k.
              Ensures-Result excluded (λ e. Ensures-pure _ tt)
                (λ names. Ensures-bind (Ensures-ask {Q = Any} _ _ tt (λ h. tt)) (λ listed l.
                  Ensures-Result listed (λ e. Ensures-pure _ tt)
                    (λ cs.
                      Ensures-bind (used_by_all-Ensures config docker names cs)
                        (λ refs n. Ensures-pure _ tt))))))))
        (λ collector. Ensures-ask _ _ tt (λ h. tt))
