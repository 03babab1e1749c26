-- ===== src/Apply/Failures.antt =====
-- The references under which a restart failed.
use updater.Common.{
  ◌≡◌, refl, sym, ◌∙◌, ◌≢◌, ◌⊎◌, inl, inr, true, false, List, [], ◌∷◌, arith, Bool-cases, In, Text,
  is_empty, is_empty_iff,
}
use updater.Libraries.{Libraries}
use updater.Types.{
  ResourceResult, ResourceStatus, failed, checked, updated, restarted, skipped, up_to_date,
  update_available,
}
use updater.Refs.{normalize_image_update_ref}
use updater.Apply.Run.{restart_failed_image_refs}

-- Some result is a failure under the new reference `ref`.
abbrev pub HasFailed : Libraries → List ResourceResult → Text → Type 0
HasFailed lib results ref =
    (res : ResourceResult) × In res results
    × (res.status ≡ failed)
    × (normalize_image_update_ref lib res.new_image ≡ ref)
    × (ref ≢ [])

status_cases : (s : ResourceStatus) → (s ≡ failed) ⊎ (s ≢ failed)
status_cases failed = inl refl
status_cases checked = inr (λ e. cc)
status_cases updated = inr (λ e. cc)
status_cases restarted = inr (λ e. cc)
status_cases skipped = inr (λ e. cc)
status_cases up_to_date = inr (λ e. cc)
status_cases update_available = inr (λ e. cc)

-- The head of the results adds its reference where it failed, and nothing otherwise.
restart_failed-other :
    (lib : Libraries) (r : ResourceResult) (rs : List ResourceResult) (s : ResourceStatus)
    → r.status ≡ s
    → s ≢ failed
    → restart_failed_image_refs lib (r ∷ rs) ≡ restart_failed_image_refs lib rs
unfolding restart_failed_image_refs
restart_failed-other lib r rs failed e ne = absurd (ne refl)
restart_failed-other lib r rs checked e ne = rw (e, restart_failed_image_refs)
restart_failed-other lib r rs updated e ne = rw (e, restart_failed_image_refs)
restart_failed-other lib r rs restarted e ne = rw (e, restart_failed_image_refs)
restart_failed-other lib r rs skipped e ne = rw (e, restart_failed_image_refs)
restart_failed-other lib r rs up_to_date e ne = rw (e, restart_failed_image_refs)
restart_failed-other lib r rs update_available e ne = rw (e, restart_failed_image_refs)

restart_failed-blank :
    (lib : Libraries) (r : ResourceResult) (rs : List ResourceResult)
    → r.status ≡ failed
    → is_empty (normalize_image_update_ref lib r.new_image) ≡ true
    → restart_failed_image_refs lib (r ∷ rs) ≡ restart_failed_image_refs lib rs
unfolding restart_failed_image_refs
restart_failed-blank lib r rs e blank = rw (e, blank, restart_failed_image_refs)

restart_failed-named :
    (lib : Libraries) (r : ResourceResult) (rs : List ResourceResult)
    → r.status ≡ failed
    → is_empty (normalize_image_update_ref lib r.new_image) ≡ false
    → restart_failed_image_refs lib (r ∷ rs)
      ≡ normalize_image_update_ref lib r.new_image ∷ restart_failed_image_refs lib rs
unfolding restart_failed_image_refs
restart_failed-named lib r rs e named = rw (e, named, restart_failed_image_refs)

pub restart_failed-HasFailed :
    (lib : Libraries) (results : List ResourceResult) (ref : Text)
    → In ref (restart_failed_image_refs lib results)
    → HasFailed lib results ref
unfolding restart_failed_image_refs
restart_failed-HasFailed lib [] ref m = absurd m
restart_failed-HasFailed lib (r ∷ rs) ref m =
    let later : In ref (restart_failed_image_refs lib rs) → HasFailed lib (r ∷ rs) ref = λ n.
      let (res, l, s, e, ne) = restart_failed-HasFailed lib rs ref n in (res, inr l, s, e, ne) in
    elim (status_cases r.status) [
      | inr ne ↦ later (rw (restart_failed-other lib r rs r.status refl ne) at m)
      | inl e ↦ elim (Bool-cases (is_empty (normalize_image_update_ref lib r.new_image))) [
        | inl blank ↦ later (rw (restart_failed-blank lib r rs e blank) at m)
        | inr named ↦
            let n : In ref
                (normalize_image_update_ref lib r.new_image ∷ restart_failed_image_refs lib rs) =
              rw (restart_failed-named lib r rs e named) at m in
            elim n [
              | inl here ↦ (
                r,
                inl refl,
                e,
                sym here,
                λ z. ground (
                  arith,
                  is_empty_iff (normalize_image_update_ref lib r.new_image),
                  sym here ∙ z,
                ),
              )
              | inr away ↦ later away
            ]
      ]
    ]

pub HasFailed-restart_failed :
    (lib : Libraries) (results : List ResourceResult) (ref : Text)
    → HasFailed lib results ref
    → In ref (restart_failed_image_refs lib results)
unfolding restart_failed_image_refs
HasFailed-restart_failed lib [] ref (res, m, s, e, ne) = absurd m
HasFailed-restart_failed lib (r ∷ rs) ref (res, inl m, s, e, ne) =
    let fails : r.status ≡ failed = rw (← m) s in
    let same : normalize_image_update_ref lib r.new_image ≡ ref = rw (← m) e in
    elim (Bool-cases (is_empty (normalize_image_update_ref lib r.new_image))) [
      | inl blank ↦ absurd (ne (sym same ∙ (is_empty_iff _).0 blank))
      | inr named ↦ rw (restart_failed-named lib r rs fails named) (inl (sym same))
    ]
HasFailed-restart_failed lib (r ∷ rs) ref (res, inr m, s, e, ne) =
    let ih = HasFailed-restart_failed lib rs ref (res, m, s, e, ne) in
    elim (status_cases r.status) [
      | inr other ↦ rw (restart_failed-other lib r rs r.status refl other) ih
      | inl f ↦ elim (Bool-cases (is_empty (normalize_image_update_ref lib r.new_image))) [
        | inl blank ↦ rw (restart_failed-blank lib r rs f blank) ih
        | inr named ↦ rw (restart_failed-named lib r rs f named) (inr ih)
      ]
    ]
