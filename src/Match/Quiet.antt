-- ===== src/Match/Quiet.antt =====
-- The verification of a compose service triggers no self-update.
use updater.Common.{
  ◌||◌, Option, none, some, List, [], ◌∷◌, Result, ok, err, Text, ◌==◌, is_empty, trim_space,
}
use updater.Docker.{Summary}
use updater.Hooks.Reading.{IsNoTrigger}
use updater.Match.{
  listed_image_id, verify_current, verify_containers, verify_listed,
  verify_compose_service_updated_image,
}
use updater.Ports.{
  Request, DockerClient, Action, Ensures, Any, Ensures-pure, Ensures-ask, Ensures-bind,
  Ensures-Result, Ensures-if,
}

module _ (docker : DockerClient) where
  listed_image_id-Ensures : (c : Summary) → Ensures IsNoTrigger Any (listed_image_id docker c)
  unfolding listed_image_id
  listed_image_id-Ensures c =
      Ensures-if (is_empty (trim_space c.image_id))
        (Ensures-bind (Ensures-ask {Q = Any} _ _ tt (λ h. tt))
          (λ a q. Ensures-Result a (λ e. Ensures-pure _ tt) (λ i. Ensures-pure _ tt)))
        (Ensures-pure _ tt)

  verify_current-Ensures :
      (project service old : Text) (rest : Action (Option Text)) (a : Result Text)
      → Ensures IsNoTrigger Any rest
      → Ensures IsNoTrigger Any (verify_current docker project service old rest a)
  unfolding verify_current
  verify_current-Ensures project service old rest (err e) r = Ensures-pure _ tt
  verify_current-Ensures project service old rest (ok id) r =
      Ensures-if (id == old) (Ensures-pure _ tt) r

  verify_containers-Ensures :
      (project service old : Text) (cs : List Summary)
      → Ensures IsNoTrigger Any (verify_containers docker project service old cs)
  unfolding verify_containers
  verify_containers-Ensures project service old [] = Ensures-pure _ tt
  verify_containers-Ensures project service old (c ∷ cs) =
      Ensures-bind (listed_image_id-Ensures c) (λ a q.
        verify_current-Ensures project service old _ a
          (verify_containers-Ensures project service old cs))

  verify_listed-Ensures :
      (project service old : Text) (listed : Result (List Summary))
      → Ensures IsNoTrigger Any (verify_listed docker project service old listed)
  unfolding verify_listed
  verify_listed-Ensures project service old (err e) = Ensures-pure _ tt
  verify_listed-Ensures project service old (ok []) = Ensures-pure _ tt
  verify_listed-Ensures project service old (ok (c ∷ cs)) =
      verify_containers-Ensures project service old (c ∷ cs)

  pub verify_compose_service-Ensures :
      (project service old : Text)
      → Ensures IsNoTrigger Any
          (verify_compose_service_updated_image (some docker) project service old)
  unfolding verify_compose_service_updated_image
  verify_compose_service-Ensures project service old =
      Ensures-if
        (is_empty (trim_space project)
          || is_empty (trim_space service)
          || is_empty (trim_space old))
        (Ensures-pure none tt)
        (Ensures-bind
          {f = verify_listed docker (trim_space project) (trim_space service) (trim_space old)}
          (Ensures-ask {Q = Any} (Request.container_list _) _ tt (λ h. tt))
          (λ listed q. verify_listed-Ensures _ _ _ listed))
