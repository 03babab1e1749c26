-- ===== src/Apply/DryRun.antt =====
-- A dry run changes nothing.
use updater.Common.{
  ◌≡◌, refl, sym, ◌∙◌, subst, ◌⊎◌, Bool, true, false, not, Option, none, some, List, [], ◌∷◌, In,
  All, Text, is_empty, elem,
}
use updater.Libraries.{Libraries}
use updater.Types.{
  Options, RunResult, ImageUpdateRecord, image_ref, needs_update, ResourceStatus, skipped,
}
use updater.Refs.{normalize_image_update_ref}
use updater.DigestCheck.{Checker}
use updater.Container.{finish}
use updater.Results.{new_timed_result}
use updater.Apply.Plans.{UpdatePlan, plan_of, build_update_plans}
use updater.Apply.Run.{
  Replaced, replace, count_plan, clear_applied_plan_records, execute_update_plan, execute_plans,
  restart_after_apply, apply_plans, apply_with_plans, apply_records, apply_pending, is_some,
}
use updater.Hooks.Reading.{IsReading, docker_client-Ensures, record_result-Ensures}
use updater.Apply.Reading.{get_image_ids-Ensures, used_images-Ensures}
use updater.Ports.{
  Request, History, DockerClient, PendingStore, Config, pure, Ensures, Ensures-requests, Any,
  Ensures-pure, Ensures-ask, Ensures-bind, Ensures-then, Ensures-Option, Ensures-Result,
  Ensures-List, Ensures-if,
}

abbrev dry : Bool → Options
dry force = record { force = force; dry_run = true }

abbrev IsUnpulled : UpdatePlan → Type 0
IsUnpulled plan = plan.pulled ≡ false

abbrev IsUnpulledOption : Option UpdatePlan → Type 0
IsUnpulledOption none = Unit
IsUnpulledOption (some plan) = IsUnpulled plan

-- The record of a run after the loop over the plans: its plans are `plans`, and nothing is replaced.
abbrev IsIdle : List UpdatePlan → RunResult × List UpdatePlan × Replaced → Type 0
IsIdle plans t = (t.1 ≡ plans) × (t.2 ≡ ([], []))

clear-Ensures :
    (store : PendingStore) (plans : List UpdatePlan)
    → All IsUnpulled plans
    → Ensures IsReading Any (clear_applied_plan_records store plans)
unfolding clear_applied_plan_records
clear-Ensures store [] u = Ensures-pure _ tt
clear-Ensures store (plan ∷ plans) (u, us) =
    rw (u, clear_applied_plan_records) (clear-Ensures store plans us)

replace_skipped :
    {s : ResourceStatus} (plan : UpdatePlan) (m : Replaced) → s ≡ skipped → replace s plan m ≡ m
unfolding replace
replace_skipped plan m e = rw (e, replace)

cons_eq : {p q : UpdatePlan} {ps qs : List UpdatePlan} → p ≡ q → ps ≡ qs → p ∷ ps ≡ q ∷ qs
cons_eq e f = cc

module _ (lib : Libraries) where
  plan_of-Ensures :
      (c : Checker) (used : List Text) (r : ImageUpdateRecord)
      → Ensures IsReading IsUnpulledOption (plan_of lib c used r)
  unfolding plan_of
  plan_of-Ensures c used r = Ensures-if (not (needs_update r)) (Ensures-pure none tt) (
      Ensures-if (is_empty (image_ref r)) (Ensures-pure none tt) (
        Ensures-if (is_empty (normalize_image_update_ref lib (image_ref r))) (Ensures-pure none tt)
          (Ensures-if (not (elem (normalize_image_update_ref lib (image_ref r)) used))
            (Ensures-pure none tt)
            (Ensures-bind (get_image_ids-Ensures lib c (image_ref r))
              (λ ids q. Ensures-pure _ refl)))))

  build_update_plans-Ensures :
      (c : Checker) (used : List Text) (rs : List ImageUpdateRecord)
      → Ensures IsReading (All IsUnpulled) (build_update_plans lib c used rs)
  unfolding build_update_plans
  build_update_plans-Ensures c used [] = Ensures-pure _ tt
  build_update_plans-Ensures c used (r ∷ rs) = Ensures-bind (plan_of-Ensures c used r) (λ plan u.
      Ensures-bind (build_update_plans-Ensures c used rs) (λ plans us. add plan u plans us))
    where
      add :
          (plan : Option UpdatePlan)
          → IsUnpulledOption plan
          → (plans : List UpdatePlan) → All IsUnpulled plans
          → Ensures IsReading
              (All IsUnpulled)
              (elim plan [ none ↦ pure plans | some p ↦ pure (p ∷ plans) ])
      add none u plans us = Ensures-pure plans us
      add (some p) u plans us = Ensures-pure (p ∷ plans) (u, us)

  module _ (config : Config) (force : Bool) where
    plan-Ensures :
        (c : Checker) (plan : UpdatePlan)
        → Ensures IsReading
            (λ t. (t.0.status ≡ skipped) × (t.1 ≡ plan))
            (execute_update_plan lib config c (dry force) plan)
    unfolding execute_update_plan
    plan-Ensures c plan = Ensures-pure _ (refl, refl)

    execute_plans-Ensures :
        (c : Checker) (out : RunResult) (m : Replaced) (plans : List UpdatePlan)
        → m ≡ ([], [])
        → Ensures IsReading (IsIdle plans) (execute_plans lib config c (dry force) out m plans)
    unfolding execute_plans
    execute_plans-Ensures c out m [] e = Ensures-pure _ (refl, e)
    execute_plans-Ensures c out m (plan ∷ plans) e =
        Ensures-bind (plan-Ensures c plan) (λ t (s, same).
          Ensures-then (record_result-Ensures config t.0) (
            Ensures-bind
              (execute_plans-Ensures c (count_plan out t.0) (replace t.0.status plan m) plans
                (replace_skipped plan m s ∙ e))
              (λ u (kept, idle). Ensures-pure (u.0, t.1 ∷ u.1, u.2) (cons_eq same kept, idle))))

    restart-Ensures :
        (out : RunResult) (plans : List UpdatePlan) (m : Replaced)
        → m ≡ ([], [])
        → Ensures IsReading
            (λ t. (t.1 ≡ plans) × (t.2 ≡ none))
            (restart_after_apply lib config out plans m)
    unfolding restart_after_apply
    restart-Ensures out plans m e =
        subst
          (λ x.
            Ensures IsReading (λ t. (t.1 ≡ plans) × (t.2 ≡ none))
              (restart_after_apply lib config out plans x))
          (sym e) (Ensures-pure _ (refl, refl))

    abbrev checker : Option DockerClient → Checker
    checker docker = record {
      docker_client = docker;
      digest_resolver = config.registry_digest_resolver;
    }

    apply_plans-Ensures :
        (store : PendingStore) (c : Checker) (plans : List UpdatePlan)
        → All IsUnpulled plans
        → Ensures IsReading Any (apply_plans lib config store c (dry force) plans)
    unfolding apply_plans
    apply_plans-Ensures store c plans us =
        Ensures-bind (execute_plans-Ensures c _ ([], []) plans refl) (λ t (kept, idle).
          Ensures-bind (restart-Ensures t.0 t.1 t.2 idle) (λ u (same, fine).
            Ensures-Option u.2
              (Ensures-then
                (clear-Ensures store u.1 (subst (All IsUnpulled) (sym (same ∙ kept)) us))
                (Ensures-pure _ tt))
              (λ e. Ensures-pure _ tt)))

    apply_with_plans-Ensures :
        (store : PendingStore) (plans : List UpdatePlan)
        → All IsUnpulled plans
        → Ensures IsReading Any (apply_with_plans lib config store (dry force) plans)
    unfolding apply_with_plans
    apply_with_plans-Ensures store plans us =
        Ensures-if (is_some lib config config.registry_digest_resolver)
          (Ensures-bind (docker_client-Ensures config) (λ client q.
            Ensures-Result client (λ e. apply_plans-Ensures store (checker none) plans us)
              (λ docker. apply_plans-Ensures store (checker (some docker)) plans us)))
          (apply_plans-Ensures store (checker none) plans us)

    apply_records-Ensures :
        (store : PendingStore) (records : List ImageUpdateRecord) (used : List Text)
        → Ensures IsReading Any (apply_records lib config store (dry force) records used)
    unfolding apply_records
    apply_records-Ensures store records used =
        Ensures-bind (docker_client-Ensures config) (λ client q.
          Ensures-bind (build_update_plans-Ensures _ used records) (λ plans us. go plans us))
      where
        go :
            (plans : List UpdatePlan)
            → All IsUnpulled plans
            → Ensures IsReading Any (elim plans [
              | [] ↦ pure (finish new_timed_result)
              | p ∷ ps ↦ apply_with_plans lib config store (dry force) (p ∷ ps)
            ])
        go [] us = Ensures-pure _ tt
        go (p ∷ ps) us = apply_with_plans-Ensures store (p ∷ ps) us

    apply_pending-Ensures : Ensures IsReading Any (apply_pending lib config (dry force))
    unfolding apply_pending
    apply_pending-Ensures = Ensures-Option config.pending_store (Ensures-pure _ tt) (λ store.
        Ensures-bind (Ensures-ask {Q = Any} _ _ tt (λ h. tt)) (λ answer q.
          Ensures-Result answer (λ e. Ensures-pure _ tt)
            (λ records. Ensures-List records (Ensures-pure _ tt) (λ r rs.
              Ensures-bind (used_images-Ensures lib config) (λ used k.
                Ensures-Result used (λ e. Ensures-pure _ tt)
                  (λ images.
                    Ensures-List images (Ensures-pure _ tt)
                      (λ u us. apply_records-Ensures store (r ∷ rs) (u ∷ us))))))))

-- A dry run of `ApplyPending`, forced or not, only reads: whatever the ports answer, it stops,
-- removes, creates, starts and connects no container, pulls no image, clears no pending record,
-- updates no compose service, triggers no self-update, and sends no notification and no event.
pub apply_pending-IsReading :
    (lib : Libraries) (config : Config) (force : Bool) (h : History) (r : Request)
    → In r (apply_pending lib config (record { force = force; dry_run = true }) h).1
    → In r h ⊎ IsReading r
apply_pending-IsReading lib config force h r m =
    Ensures-requests (apply_pending-Ensures lib config force) h r m
