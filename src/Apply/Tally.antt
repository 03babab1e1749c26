-- ===== src/Apply/Tally.antt =====
-- The counters of a result and its items: what one plan and one container add.
use updater.Common.{
  ℕ, ◌+◌, ◌≡◌, refl, sym, ap, ◌∙◌, ◌≢◌, ◌↔◌, Bool, true, false, Option, none, some, List, [], ◌∷◌,
  ◌++◌, arith, if◌then◌else◌, length, length-append, Text,
}
use updater.Types.{
  ResourceResult, RunResult, ResourceStatus, checked, updated, restarted, skipped, failed,
  up_to_date, update_available,
}
use updater.Results.{new_timed_result, finish_result, apply_result_count}
use updater.Container.{Outcome, fail}
use updater.Apply.Run.{count_plan}
use mathlib.Core.List.{append_assoc, append-nil}

abbrev is_updated : ResourceStatus → Bool
is_updated updated = true
is_updated _ = false

abbrev is_skipped : ResourceStatus → Bool
is_skipped skipped = true
is_skipped _ = false

abbrev is_failed : ResourceStatus → Bool
is_failed failed = true
is_failed _ = false

abbrev is_restarted : ResourceStatus → Bool
is_restarted restarted = true
is_restarted _ = false

abbrev is_checked : ResourceStatus → Bool
is_checked checked = true
is_checked up_to_date = true
is_checked update_available = true
is_checked _ = false

abbrev one : Bool → ℕ
one b = if b then 1 else 0

-- How many of the items have a status that passes the test.
abbrev tally : (ResourceStatus → Bool) → List ResourceResult → ℕ
tally test [] = 0
tally test (item ∷ items) = one (test item.status) + tally test items

tally-snoc :
    (test : ResourceStatus → Bool) (items : List ResourceResult) (item : ResourceResult)
    → tally test (items ++ item ∷ []) ≡ tally test items + one (test item.status)
tally-snoc test [] item = omega arith
tally-snoc test (x ∷ items) item = omega (arith, tally-snoc test items item)

-- The items of a run are first those of its plans, then those of the containers. Every plan counts
-- as checked, whatever else it counts as. A container counts once, by its status.
abbrev pub IsTally : (plans containers : List ResourceResult) → RunResult → Type 0
IsTally plans containers out =
    (out.items ≡ plans ++ containers)
    × (out.checked_count ≡ length plans + tally is_checked containers)
    × (out.restarted_count ≡ tally is_restarted containers)
    × (out.updated_count ≡ tally is_updated out.items)
    × (out.skipped_count ≡ tally is_skipped out.items)
    × (out.failed_count ≡ tally is_failed out.items)

count_plan_counts :
    (status : ResourceStatus) (out : RunResult) (item : ResourceResult)
    → item.status ≡ status
    → ((count_plan out item).items ≡ out.items ++ item ∷ [])
      × ((count_plan out item).checked_count ≡ out.checked_count + 1)
      × ((count_plan out item).restarted_count ≡ out.restarted_count)
      × ((count_plan out item).updated_count ≡ out.updated_count + one (is_updated item.status))
      × ((count_plan out item).skipped_count ≡ out.skipped_count + one (is_skipped item.status))
      × ((count_plan out item).failed_count ≡ out.failed_count + one (is_failed item.status))
unfolding count_plan
count_plan_counts _ out item e = ground arith

apply_result_counts :
    (status : ResourceStatus) (out : RunResult) (item : ResourceResult)
    → item.status ≡ status
    → ((apply_result_count out item).items ≡ out.items)
      × ((apply_result_count out item).checked_count
          ≡ out.checked_count + one (is_checked item.status))
      × ((apply_result_count out item).restarted_count
          ≡ out.restarted_count + one (is_restarted item.status))
      × ((apply_result_count out item).updated_count
          ≡ out.updated_count + one (is_updated item.status))
      × ((apply_result_count out item).skipped_count
          ≡ out.skipped_count + one (is_skipped item.status))
      × ((apply_result_count out item).failed_count
          ≡ out.failed_count + one (is_failed item.status))
unfolding apply_result_count
apply_result_counts _ out item e = ground arith

pub count_plan-IsTally :
    (ps : List ResourceResult) (out : RunResult) (item : ResourceResult)
    → IsTally ps [] out
    → IsTally (ps ++ item ∷ []) [] (count_plan out item)
count_plan-IsTally ps out item (items, c, r, u, s, f) =
    let (is, c', r', u', s', f') = count_plan_counts item.status out item refl in
    (
      is ∙ ap (λ l. l ++ item ∷ []) (items ∙ append-nil ps) ∙ sym (append-nil _),
      omega (arith, length-append ps (item ∷ [])),
      r' ∙ r,
      u'
          ∙ ap (λ n. n + one (is_updated item.status)) u
          ∙ sym (tally-snoc is_updated out.items item)
          ∙ ap (tally is_updated) (sym is),
      s'
          ∙ ap (λ n. n + one (is_skipped item.status)) s
          ∙ sym (tally-snoc is_skipped out.items item)
          ∙ ap (tally is_skipped) (sym is),
      f'
          ∙ ap (λ n. n + one (is_failed item.status)) f
          ∙ sym (tally-snoc is_failed out.items item)
          ∙ ap (tally is_failed) (sym is),
    )

pub count_container-IsTally :
    (ps cs : List ResourceResult) (out : RunResult) (item : ResourceResult)
    → IsTally ps cs out
    → IsTally ps (cs ++ item ∷ []) (record (apply_result_count out item) {
      items = (apply_result_count out item).items ++ item ∷ [];
    })
count_container-IsTally ps cs out item (items, c, r, u, s, f) =
    let (is, c', r', u', s', f') = apply_result_counts item.status out item refl in
    let is' = ap (λ l. l ++ item ∷ []) is in
    (
      is' ∙ ap (λ l. l ++ item ∷ []) items ∙ append_assoc ps cs (item ∷ []),
      omega (arith, tally-snoc is_checked cs item),
      omega (arith, tally-snoc is_restarted cs item),
      u'
          ∙ ap (λ n. n + one (is_updated item.status)) u
          ∙ sym (tally-snoc is_updated out.items item)
          ∙ ap (tally is_updated) (sym is'),
      s'
          ∙ ap (λ n. n + one (is_skipped item.status)) s
          ∙ sym (tally-snoc is_skipped out.items item)
          ∙ ap (tally is_skipped) (sym is'),
      f'
          ∙ ap (λ n. n + one (is_failed item.status)) f
          ∙ sym (tally-snoc is_failed out.items item)
          ∙ ap (tally is_failed) (sym is'),
    )

-- The outcome of a run: without a result there is an error. With one, the counters agree with the
-- items, and the run is a success exactly if there is no error and no item failed.
abbrev pub IsCounted : Outcome → Type 0
IsCounted (none, e) = e ≢ none
IsCounted (some out, e) =
    (plans containers : List ResourceResult) × IsTally plans containers out
    × ((out.success ≡ true) ↔ ((e ≡ none) × (tally is_failed out.items ≡ 0)))

pub finish_result-IsCounted :
    (ps cs : List ResourceResult) (out : RunResult) (error : Option Text)
    → IsTally ps cs out
    → IsCounted (some (finish_result error out), error)
unfolding finish_result
finish_result-IsCounted ps cs out none t =
    (ps, cs, t, (λ h. (refl, ground arith), λ (_, z). ground arith))
finish_result-IsCounted ps cs out (some e) t =
    (ps, cs, t, (λ h. absurd (ground arith), λ (n, _). absurd (ground arith)))

pub fail-IsCounted : (e : Text) → IsCounted (fail e)
fail-IsCounted e z = cc

pub empty-IsTally : IsTally [] [] new_timed_result
empty-IsTally = (refl, refl, refl, refl, refl, refl)
