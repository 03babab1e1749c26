-- ===== src/Apply/Clear.antt =====
-- Which records a run clears: those of the plans that were pulled and whose restart did not fail.
use updater.Common.{
  ◌≡◌, refl, ◌↔◌, ◌⊎◌, inl, inr, true, false, List, [], ◌∷◌, Bool-cases, In, Text, elem, elem_iff,
  not-In_of_elem,
}
use updater.Libraries.{Libraries}
use updater.Types.{ResourceResult}
use updater.Refs.{normalize_image_update_ref}
use updater.Apply.Plans.{UpdatePlan}
use updater.Apply.Run.{
  restart_failed_image_refs, mark_plans, mark_restart_failed_plans, clear_applied_plan_records,
}
use updater.Ports.{Request, History, PendingStore, ◌>>◌}
use updater.Apply.Failures.{HasFailed, restart_failed-HasFailed, HasFailed-restart_failed}

-- A plan whose record is to be cleared when `refs` are the references that failed.
abbrev IsCleared : Libraries → List Text → List UpdatePlan → Request → Type 0
IsCleared lib refs plans r =
    (plan : UpdatePlan) × In plan plans
    × (plan.pulled ≡ true)
    × (plan.restart_failed ≡ false)
    × (elem (normalize_image_update_ref lib plan.new_ref) refs ≡ false)
    × (r ≡ Request.clear_image_update_record plan.record_)

clear_marked-IsCleared :
    (lib : Libraries) (store : PendingStore) (refs : List Text) (plans : List UpdatePlan)
    (h : History) (r : Request)
    → In r (clear_applied_plan_records store (mark_plans lib refs plans) h).1
    → In r h ⊎ IsCleared lib refs plans r
unfolding clear_applied_plan_records mark_plans ◌>>◌
clear_marked-IsCleared lib store refs [] h r m = inl m
clear_marked-IsCleared lib store refs (p ∷ ps) h r m =
    let ref = normalize_image_update_ref lib p.new_ref in
    let later : (h' : History)
        → In r (clear_applied_plan_records store (mark_plans lib refs ps) h').1
        → In r h' ⊎ IsCleared lib refs (p ∷ ps) r =
      λ h' n. elim (clear_marked-IsCleared lib store refs ps h' r n) [
        | inl l ↦ inl l
        | inr (q, l, a, b, c, d) ↦ inr (q, inr l, a, b, c, d)
      ] in
    elim (Bool-cases p.pulled) [
      | inr idle ↦ later h (rw (idle, clear_applied_plan_records, mark_plans) at m)
      | inl pulled ↦ elim (Bool-cases (elem ref refs)) [
        | inl hit ↦ later h (rw (pulled, hit, clear_applied_plan_records, mark_plans) at m)
        | inr miss ↦ elim (Bool-cases p.restart_failed) [
          | inl kept ↦
              later h (rw (pulled, miss, kept, clear_applied_plan_records, mark_plans) at m)
          | inr fine ↦
              elim (later (Request.clear_image_update_record p.record_ ∷ h)
                (rw (pulled, miss, fine, clear_applied_plan_records, mark_plans) at m)) [
                  | inl (inl e) ↦ inr (p, inl refl, pulled, fine, miss, e)
                  | inl (inr l) ↦ inl l
                  | inr c ↦ inr c
                ]
        ]
      ]
    ]

clear_keeps :
    (store : PendingStore) (plans : List UpdatePlan) (h : History) (r : Request)
    → In r h
    → In r (clear_applied_plan_records store plans h).1
unfolding clear_applied_plan_records ◌>>◌
clear_keeps store [] h r m = m
clear_keeps store (p ∷ ps) h r m = elim (Bool-cases p.pulled) [
  | inr idle ↦ rw (idle, clear_applied_plan_records) (clear_keeps store ps h r m)
  | inl pulled ↦ elim (Bool-cases p.restart_failed) [
    | inl kept ↦ rw (pulled, kept, clear_applied_plan_records) (clear_keeps store ps h r m)
    | inr fine ↦
        rw (pulled, fine, clear_applied_plan_records)
          (clear_keeps store ps (Request.clear_image_update_record p.record_ ∷ h) r (inr m))
  ]
]

IsCleared-clear_marked :
    (lib : Libraries) (store : PendingStore) (refs : List Text) (plans : List UpdatePlan)
    (h : History) (r : Request)
    → IsCleared lib refs plans r
    → In r (clear_applied_plan_records store (mark_plans lib refs plans) h).1
unfolding clear_applied_plan_records mark_plans ◌>>◌
IsCleared-clear_marked lib store refs [] h r (q, m, _, _, _, _) = absurd m
IsCleared-clear_marked lib store refs (p ∷ ps) h r (q, inl m, a, b, c, d) =
    let pulled : p.pulled ≡ true = rw (← m) a in
    let fine : p.restart_failed ≡ false = rw (← m) b in
    let miss : elem (normalize_image_update_ref lib p.new_ref) refs ≡ false = rw (← m) c in
    let same : r ≡ Request.clear_image_update_record p.record_ = rw (← m) d in
    rw (pulled, fine, miss, same, clear_applied_plan_records, mark_plans)
      (clear_keeps store (mark_plans lib refs ps) (Request.clear_image_update_record p.record_ ∷ h)
        _ (inl refl))
IsCleared-clear_marked lib store refs (p ∷ ps) h r (q, inr m, a, b, c, d) =
    let ih : (h' : History)
        → In r (clear_applied_plan_records store (mark_plans lib refs ps) h').1 =
      λ h'. IsCleared-clear_marked lib store refs ps h' r (q, m, a, b, c, d) in
    let ref = normalize_image_update_ref lib p.new_ref in
    elim (Bool-cases p.pulled) [
      | inr idle ↦ rw (idle, clear_applied_plan_records, mark_plans) (ih h)
      | inl pulled ↦ elim (Bool-cases (elem ref refs)) [
        | inl hit ↦ rw (pulled, hit, clear_applied_plan_records, mark_plans) (ih h)
        | inr miss ↦ elim (Bool-cases p.restart_failed) [
          | inl kept ↦ rw (pulled, miss, kept, clear_applied_plan_records, mark_plans) (ih h)
          | inr fine ↦
              rw (pulled, miss, fine, clear_applied_plan_records, mark_plans)
                (ih (Request.clear_image_update_record p.record_ ∷ h))
        ]
      ]
    ]

mark_plans-none : (lib : Libraries) (plans : List UpdatePlan) → mark_plans lib [] plans ≡ plans
unfolding mark_plans elem
mark_plans-none lib [] = refl
mark_plans-none lib (p ∷ ps) = elim (Bool-cases p.pulled) [
  | inl pulled ↦ rw (pulled, mark_plans, mark_plans-none lib ps)
  | inr idle ↦ rw (idle, mark_plans, mark_plans-none lib ps)
]

mark_restart_failed_plans-mark_plans :
    (lib : Libraries) (plans : List UpdatePlan) (results : List ResourceResult)
    → mark_restart_failed_plans lib plans results
      ≡ mark_plans lib (restart_failed_image_refs lib results) plans
unfolding mark_restart_failed_plans
mark_restart_failed_plans-mark_plans lib plans results =
    by_refs (restart_failed_image_refs lib results) refl
  where
    by_refs :
        (refs : List Text)
        → restart_failed_image_refs lib results ≡ refs
        → mark_restart_failed_plans lib plans results
          ≡ mark_plans lib (restart_failed_image_refs lib results) plans
    by_refs [] e = rw (e, mark_restart_failed_plans, mark_plans-none lib plans)
    by_refs (ref ∷ refs) e = rw (e, mark_restart_failed_plans)

-- A plan that has been carried out: it was pulled, no restart failure was noted before, and no
-- result of the restart is a failure under the plan's new reference.
abbrev pub IsDone : Libraries → List ResourceResult → UpdatePlan → Type 0
IsDone lib results plan =
    (plan.pulled ≡ true)
    × (plan.restart_failed ≡ false)
    × (¬ HasFailed lib results (normalize_image_update_ref lib plan.new_ref))

-- After a restart with the given results, the requests that clear records are exactly those for
-- the records of the plans that were pulled and have no failed restart under their new reference;
-- the requests made before are kept. A record whose restart failed stays pending.
pub cleared_iff :
    (lib : Libraries) (store : PendingStore) (plans : List UpdatePlan)
    (results : List ResourceResult) (h : History) (r : Request)
    → In r (clear_applied_plan_records store (mark_restart_failed_plans lib plans results) h).1 ↔ (
        In r h
        ⊎ ((plan : UpdatePlan) × In plan plans
            × IsDone lib results plan
            × (r ≡ Request.clear_image_update_record plan.record_)))
cleared_iff lib store plans results h r =
    let refs = restart_failed_image_refs lib results in
    rw (mark_restart_failed_plans-mark_plans lib plans results) (
      λ m. elim (clear_marked-IsCleared lib store refs plans h r m) [
        | inl l ↦ inl l
        | inr (p, l, a, b, c, d) ↦ inr (
          p,
          l,
          (a, b, λ f. not-In_of_elem _ refs c (HasFailed-restart_failed lib results _ f)),
          d,
        )
      ],
      λ m. elim m [
        | inl l ↦ clear_keeps store (mark_plans lib refs plans) h r l
        | inr (p, l, (a, b, c), d) ↦ IsCleared-clear_marked lib store refs plans h r (
          p,
          l,
          a,
          b,
          elim (Bool-cases (elem (normalize_image_update_ref lib p.new_ref) refs)) [
            | inr miss ↦ miss
            | inl hit ↦
                absurd (c (restart_failed-HasFailed lib results _ ((elem_iff _ refs).0 hit)))
          ],
          d,
        )
      ],
    )
