-- ===== src/Tests/Labels.antt =====
-- The theorems on labels and label policies at concrete inputs.
use updater.Common.{
  ◌≡◌, refl, ◌≢◌, ◌↔◌, ◌⊎◌, inl, inr, true, Option, none, some, [], ◌∷◌, In, Text, codes,
  trim_space, fold_case, Map, text_functions,
}
use updater.Labels.{
  lookup_label, is_arcane_container, is_arcane_server_container,
  is_update_disabled as labels_update_disabled, is_swarm_task as labels_swarm_task,
  stop_signal as labels_stop_signal, should_disable_arcane_server_redeploy,
}
use updater.Labels.Lookup.{IsFoldDistinct, lookup_label-eq-some_iff}
use updater.Labels.Roles.{Overlaps, should_disable_redeploy_iff}
use updater.LabelPolicy
use updater.LabelPolicy.{LabelPolicy, merge_label_policy_defaults, default_label_policy}
use updater.LabelPolicy.Merge.{merge-Answers}

abbrev server_labels : Map Text
server_labels = (codes "COM.getarcaneapp.arcane.server", codes " True ") ∷ []

abbrev two_labels : Map Text
two_labels = (codes "a", codes "1") ∷ (codes "B", codes "2") ∷ []

folds_differ : fold_case (codes "a") ≢ fold_case (codes "B")
unfolding text_functions
folds_differ e = cc

two_labels-IsFoldDistinct : IsFoldDistinct two_labels
two_labels-IsFoldDistinct = ((λ m. elim m [ inl e ↦ folds_differ e | inr n ↦ n ]), ((λ n. n), tt))

lookup_label-eq-some_iff_example :
    (lookup_label two_labels (codes "b") ≡ some (codes "2"))
    ↔ ((key : Text) × In (key, codes "2") two_labels × (fold_case key ≡ fold_case (codes "b")))
lookup_label-eq-some_iff_example =
    lookup_label-eq-some_iff two_labels (codes "b") (codes "2") two_labels-IsFoldDistinct

server_found : is_arcane_server_container server_labels ≡ true
unfolding is_arcane_server_container text_functions
server_found = refl

should_disable_redeploy_iff_example :
    (should_disable_arcane_server_redeploy server_labels (codes "abc") (codes "abcdef") none ≡ true)
    ↔ ((is_arcane_server_container server_labels ≡ true)
        × ((◌≢◌ {A = Option Text} none none)
            ⊎ ((trim_space (codes "abcdef") ≡ [])
                ⊎ Overlaps (trim_space (codes "abc")) (trim_space (codes "abcdef")))))
should_disable_redeploy_iff_example =
    should_disable_redeploy_iff server_labels (codes "abc") (codes "abcdef") none

-- Only the question of agents is answered by the caller.
abbrev agent_policy : LabelPolicy
agent_policy = record {
  is_update_disabled_func = none;
  is_self_update_target_func = none;
  is_agent_func = some (λ labels. true);
  is_server_func = none;
  is_swarm_task_func = none;
  stop_signal_func = none;
}

merge-Answers_example :
    (LabelPolicy.is_update_disabled (merge_label_policy_defaults agent_policy) server_labels
      ≡ labels_update_disabled server_labels)
    × (LabelPolicy.is_self_update_target (merge_label_policy_defaults agent_policy) server_labels
        ≡ is_arcane_container server_labels)
    × (LabelPolicy.is_agent (merge_label_policy_defaults agent_policy) server_labels ≡ true)
    × (LabelPolicy.is_server (merge_label_policy_defaults agent_policy) server_labels
        ≡ is_arcane_server_container server_labels)
    × (LabelPolicy.is_swarm_task (merge_label_policy_defaults agent_policy) server_labels
        ≡ labels_swarm_task server_labels)
    × (LabelPolicy.stop_signal (merge_label_policy_defaults agent_policy) server_labels
        ≡ labels_stop_signal server_labels)
merge-Answers_example = merge-Answers agent_policy server_labels
