-- ===== src/Match/Verify.antt =====
-- The verification of a compose service after its update.
use updater.Common.{
  ◌≡◌, refl, sym, ◌≢◌, ◌⊎◌, inl, inr, true, false, ◌||◌, Option, none, some, List, [], ◌∷◌, arith,
  Bool-cases, All, Result, ok, err, Text, ◌==◌, eq_iff, is_empty, is_empty_iff, trim_space,
}
use updater.Docker.{Summary, InspectResponse}
use updater.Match.{
  listed_image_id, verify_current, verify_containers, verify_listed, service_filters,
  verify_compose_service_updated_image,
}
use updater.Ports.{Request, History, DockerClient, Action, ◌>>=◌}

-- The image that a container runs: the one it is listed with or, if that is blank, the one that an
-- inspection of the container answers.
abbrev RunsImage : DockerClient → Summary → Text → Type 0
RunsImage docker c id =
    ((trim_space c.image_id ≢ []) × (id ≡ trim_space c.image_id))
    ⊎ ((trim_space c.image_id ≡ [])
        × ((h : History) × (i : InspectResponse) × (docker.container_inspect h c.id ≡ ok i)
            × (id ≡ trim_space i.image)))

-- The container runs an image, and it is not the old one.
abbrev pub IsReplaced : DockerClient → Text → Summary → Type 0
IsReplaced docker old c = (id : Text) × RunsImage docker c id × (id ≢ old)

ok_inj : {a b : Text} → Result.ok a ≡ ok b → a ≡ b
ok_inj e = cc

err_ne : {a b : Text} → err a ≡ ok b → ⊥
err_ne e = cc

listed_image_id-RunsImage :
    (docker : DockerClient) (c : Summary) (h : History) (id : Text)
    → (listed_image_id docker c h).0 ≡ ok id
    → RunsImage docker c id
unfolding listed_image_id ◌>>=◌
listed_image_id-RunsImage docker c h id e = elim (Bool-cases (is_empty (trim_space c.image_id))) [
  | inr known ↦
      let is : ok (trim_space c.image_id) ≡ ok id = rw (known, listed_image_id) at e in
      inl (λ z. ground (arith, is_empty_iff (trim_space c.image_id), z), sym (ok_inj is))
  | inl blank ↦
      let (i, q, is) = inspected blank (docker.container_inspect h c.id) refl in
      inr ((is_empty_iff _).0 blank, (h, i, q, is))
]
  where
    inspected :
        is_empty (trim_space c.image_id) ≡ true
        → (answer : Result InspectResponse) → docker.container_inspect h c.id ≡ answer
        → (i : InspectResponse) × (docker.container_inspect h c.id ≡ ok i)
          × (id ≡ trim_space i.image)
    inspected blank (err f) q = absurd (err_ne (rw (blank, q, listed_image_id) at e))
    inspected blank (ok i) q =
        let is : ok (trim_space i.image) ≡ ok id = rw (blank, q, listed_image_id) at e in
        (i, q, sym (ok_inj is))

none_ne : {e : Text} → some e ≡ none → ⊥
none_ne f = cc

verify_current-none :
    (docker : DockerClient) (project service old : Text) (rest : Action (Option Text))
    (current : Result Text) (h : History)
    → (verify_current docker project service old rest current h).0 ≡ none
    → (id : Text) × (current ≡ ok id) × ((id == old) ≡ false) × ((rest h).0 ≡ none)
unfolding verify_current
verify_current-none docker project service old rest (err e) h v = absurd (none_ne v)
verify_current-none docker project service old rest (ok id) h v = elim (Bool-cases (id == old)) [
  | inl same ↦ absurd (none_ne (rw (same, verify_current) at v))
  | inr other ↦ (id, refl, other, rw (other, verify_current) at v)
]

verify_containers-All :
    (docker : DockerClient) (project service old : Text) (cs : List Summary) (h : History)
    → (verify_containers docker project service old cs h).0 ≡ none
    → All (IsReplaced docker old) cs
unfolding verify_containers ◌>>=◌
verify_containers-All docker project service old [] h v = tt
verify_containers-All docker project service old (c ∷ cs) h v =
    let (id, k, other, rest) =
      verify_current-none docker project service old
        (verify_containers docker project service old cs) (listed_image_id docker c h).0
        (listed_image_id docker c h).1 v in
    (
      (id, listed_image_id-RunsImage docker c h id k, λ e. ground (arith, eq_iff id old, e)),
      verify_containers-All docker project service old cs _ rest,
    )

verify_listed-All :
    (docker : DockerClient) (project service old : Text) (listed : Result (List Summary))
    (h : History)
    → (verify_listed docker project service old listed h).0 ≡ none
    → (c : Summary) × (cs : List Summary) × (listed ≡ ok (c ∷ cs))
      × All (IsReplaced docker old) (c ∷ cs)
unfolding verify_listed
verify_listed-All docker project service old (err e) h v = absurd (none_ne v)
verify_listed-All docker project service old (ok []) h v = absurd (none_ne v)
verify_listed-All docker project service old (ok (c ∷ cs)) h v =
    (c, cs, refl, verify_containers-All docker project service old (c ∷ cs) h v)

-- With a client, and with names and an old image ID that are not blank, a verification that finds
-- no fault has listed the running containers of the service, there is at least one, and each runs
-- another image than the old one, by the ID in the list or, if that is blank, by the ID that an
-- inspection of the container has answered.
pub verify_compose_service-IsReplaced :
    (docker : DockerClient) (project service old : Text) (h : History)
    (listed : Result (List Summary))
    → trim_space project ≢ []
    → trim_space service ≢ []
    → trim_space old ≢ []
    → docker.container_list h (service_filters docker (trim_space project) (trim_space service))
      ≡ listed
    → (verify_compose_service_updated_image (some docker) project service old h).0 ≡ none
    → (c : Summary) × (cs : List Summary) × (listed ≡ ok (c ∷ cs))
      × All (IsReplaced docker (trim_space old)) (c ∷ cs)
unfolding verify_compose_service_updated_image ◌>>=◌
verify_compose_service-IsReplaced docker project service old h listed p s o l v =
    let request =
      Request.container_list (service_filters docker (trim_space project) (trim_space service)) in
    let named : (is_empty (trim_space project)
          || is_empty (trim_space service)
          || is_empty (trim_space old))
        ≡ false =
      ground (
        arith,
        is_empty_iff (trim_space project),
        is_empty_iff (trim_space service),
        is_empty_iff (trim_space old),
      ) in
    let w : (verify_listed docker (trim_space project) (trim_space service) (trim_space old) listed
          (request ∷ h)).0
        ≡ none =
      rw (named, l, verify_compose_service_updated_image) at v in
    verify_listed-All docker (trim_space project) (trim_space service) (trim_space old) listed
      (request ∷ h) w
