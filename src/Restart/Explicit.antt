-- ===== src/Restart/Explicit.antt =====
-- What the propagation does to the plans.
use updater.Common.{
  ℕ, zero, suc, ◌≡◌, refl, sym, ap, ◌∙◌, subst, ◌≢◌, ◌⊎◌, inl, inr, true, Option, none, some, List,
  [], ◌∷◌, arith, if◌then◌else◌, Bool-cases, Option-cases, length, Text, codes, ◌==◌, eq_iff,
  is_empty, is_empty_iff, trim_space, Map, lookup, insert, lookup-insert,
}
use updater.Docker.{InspectResponse, ContainerConfig}
use updater.Restart.Scan.{
  fallback_image_for_plan, RestartPlan, RestartScan, implied, plan_implied, propagate_rounds,
  propagate_implicit_restarts,
}
use updater.Restart.Closure.{round, added_by, shape, propagate_rounds-last, propagate_rounds-next}

abbrev configured : Option ContainerConfig → Text
configured none = []
configured (some c) = trim_space c.image

-- The image that an inspected container is configured with, without surrounding spaces.
abbrev config_image : Option InspectResponse → Text
config_image none = []
config_image (some i) = configured i.config

-- The image that a container restarts with: the one it is configured with or, if that is unknown or
-- blank, the one it is listed with.
abbrev pub IsOwnImage : RestartPlan → Text → Type 0
IsOwnImage plan ref =
    ((config_image plan.inspect ≢ []) × (ref ≡ config_image plan.inspect))
    ⊎ ((config_image plan.inspect ≡ []) × (ref ≡ trim_space plan.cnt.image))

-- A plan that has a new reference stays as it is. One without stays as it is or becomes a restart
-- that follows from a dependency, of the same container with its own image; a missing plan stays
-- missing.
abbrev pub IsPlanFor : Option RestartPlan → Option RestartPlan → Type 0
IsPlanFor none after = after ≡ none
IsPlanFor (some plan) after =
    (after ≡ some plan)
    ⊎ ((plan.new_ref ≡ [])
        × ((ref : Text) × IsOwnImage plan ref
            × (after
                ≡ some (record plan {
                  new_ref = ref;
                  match_value = codes "dependency_restart";
                  implicit = true;
                }))))

fallback-IsOwnImage : (plan : RestartPlan) → IsOwnImage plan (fallback_image_for_plan plan)
unfolding fallback_image_for_plan
fallback-IsOwnImage plan = elim (Bool-cases (is_empty (config_image plan.inspect))) [
  | inl blank ↦ inr ((is_empty_iff _).0 blank, fallback plan.inspect refl ∙ rw blank refl)
  | inr named ↦ inl (
    λ e. ground (arith, is_empty_iff (config_image plan.inspect), e),
    fallback plan.inspect refl ∙ rw named refl,
  )
]
  where
    fallback :
        (inspected : Option InspectResponse)
        → plan.inspect ≡ inspected
        → fallback_image_for_plan plan ≡ (
            if is_empty (config_image plan.inspect)
            then trim_space plan.cnt.image
            else config_image plan.inspect)
    fallback none e = rw (e, fallback_image_for_plan) refl
    fallback (some i) e = elim (Option-cases i.config) [
      | inl f ↦ rw (e, f, fallback_image_for_plan) refl
      | inr (c, f) ↦ rw (e, f, fallback_image_for_plan) refl
    ]

IsPlanFor-refl : (a : Option RestartPlan) → IsPlanFor a a
IsPlanFor-refl none = refl
IsPlanFor-refl (some p) = inl refl

-- The second step, if there is one, is taken by a plan that differs in neither the container nor
-- the inspection, and so chooses the same image.
IsPlanFor-trans : (a b c : Option RestartPlan) → IsPlanFor a b → IsPlanFor b c → IsPlanFor a c
IsPlanFor-trans none b c e k = subst (λ x. IsPlanFor x c) e k
IsPlanFor-trans (some p) b c (inl e) k = subst (λ x. IsPlanFor x c) e k
IsPlanFor-trans (some p) b c (inr (blank, (ref, own, e))) k =
    inr (blank, later (subst (λ x. IsPlanFor x c) e k))
  where
    later :
        IsPlanFor
          (some
            (record p { new_ref = ref; match_value = codes "dependency_restart"; implicit = true }))
          c
        → (r : Text) × IsOwnImage p r
          × (c
              ≡ some (record p {
                new_ref = r;
                match_value = codes "dependency_restart";
                implicit = true;
              }))
    later (inl f) = (ref, own, f)
    later (inr (_, (r, own', f))) = (r, own', f)

implied-IsPlanFor :
    (plans : Map RestartPlan) (name k : Text) (plan : RestartPlan)
    → lookup plans name ≡ some plan
    → is_empty plan.new_ref ≡ true
    → IsPlanFor (lookup plans k) (lookup (insert plans name (implied plan)) k)
implied-IsPlanFor plans name k plan e blank = elim (Bool-cases (name == k)) [
  | inl same ↦
      let after : lookup (insert plans name (implied plan)) k ≡ some (implied plan) =
        rw (lookup-insert plans name k (implied plan), same) refl in
      subst (λ x. IsPlanFor x (lookup (insert plans name (implied plan)) k))
        (sym e ∙ ap (lookup plans) ((eq_iff name k).0 same))
        (inr (
          (is_empty_iff plan.new_ref).0 blank,
          (fallback_image_for_plan plan, fallback-IsOwnImage plan, after),
        ))
  | inr other ↦
      let after : lookup (insert plans name (implied plan)) k ≡ lookup plans k =
        rw (lookup-insert plans name k (implied plan), other) refl in
      subst (IsPlanFor (lookup plans k)) (sym after) (IsPlanFor-refl _)
]

plan_implied-step :
    (plans : Map RestartPlan) (name : Text) (names : List Text) (k : Text) (plan : RestartPlan)
    → lookup plans name ≡ some plan
    → is_empty plan.new_ref ≡ true
    → IsPlanFor (lookup plans k) (lookup (plan_implied (insert plans name (implied plan)) names) k)
    → IsPlanFor (lookup plans k) (lookup (plan_implied plans (name ∷ names)) k)
unfolding plan_implied
plan_implied-step plans name names k plan found blank h =
    let same : plan_implied plans (name ∷ names)
        ≡ plan_implied (insert plans name (implied plan)) names =
      rw (found, blank, plan_implied) in
    rw same h

plan_implied-IsPlanFor :
    (plans : Map RestartPlan) (names : List Text) (k : Text)
    → IsPlanFor (lookup plans k) (lookup (plan_implied plans names) k)
unfolding plan_implied
plan_implied-IsPlanFor plans [] k = IsPlanFor-refl _
plan_implied-IsPlanFor plans (name ∷ names) k = elim (Option-cases (lookup plans name)) [
  | inl missing ↦ rw (missing, plan_implied) (plan_implied-IsPlanFor plans names k)
  | inr (plan, found) ↦ elim (Bool-cases (is_empty plan.new_ref)) [
    | inr named ↦ rw (found, named, plan_implied) (plan_implied-IsPlanFor plans names k)
    | inl blank ↦ plan_implied-step plans name names k plan found blank (
        IsPlanFor-trans _ _ _ (implied-IsPlanFor plans name k plan found blank)
          (plan_implied-IsPlanFor (insert plans name (implied plan)) names k))
  ]
]

propagate_rounds-IsPlanFor :
    (fuel : ℕ) (scan after : RestartScan) (k : Text)
    → propagate_rounds fuel scan ≡ some after
    → IsPlanFor (lookup scan.plans_by_name k) (lookup after.plans_by_name k)
unfolding propagate_rounds
propagate_rounds-IsPlanFor zero scan after k e = cc
propagate_rounds-IsPlanFor (suc fuel) scan after k e =
    let first : IsPlanFor (lookup scan.plans_by_name k) (lookup (round scan).plans_by_name k) =
      plan_implied-IsPlanFor scan.plans_by_name (added_by scan) k in
    elim (shape (added_by scan)) [
      | inl none_added ↦
          let last : some (round scan) ≡ some after =
            sym (propagate_rounds-last fuel scan none_added) ∙ e in
          let same : round scan ≡ after = cc in
          subst (λ x. IsPlanFor (lookup scan.plans_by_name k) (lookup x.plans_by_name k)) same first
      | inr (x, ys, some_added) ↦
          let later : propagate_rounds fuel (round scan) ≡ some after =
            sym (propagate_rounds-next fuel scan some_added) ∙ e in
          IsPlanFor-trans _ _ _ first (propagate_rounds-IsPlanFor fuel (round scan) after k later)
    ]

-- The propagation keeps every plan that has a new reference, whatever the dependencies are. A plan
-- without one either stays as it is or becomes an implicit restart of the same container: the new
-- reference is then the image of the container itself, the match says that a dependency restarts,
-- and the other fields stay. No plan is added under a name without one.
pub propagate_implicit_restarts-IsPlanFor :
    (scan after : RestartScan) (k : Text)
    → propagate_implicit_restarts scan ≡ some after
    → IsPlanFor (lookup scan.plans_by_name k) (lookup after.plans_by_name k)
unfolding propagate_implicit_restarts
propagate_implicit_restarts-IsPlanFor scan after k e =
    propagate_rounds-IsPlanFor (suc (length scan.containers)) scan after k e
