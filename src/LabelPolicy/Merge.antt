-- ===== src/LabelPolicy/Merge.antt =====
-- The policy that a service works with.
use updater.Common.{◌≡◌, refl, Bool, Option, none, some, [], Text, Map}
use updater.Labels.{
  is_update_disabled as labels_update_disabled, is_arcane_container, is_arcane_agent_container,
  is_arcane_server_container, is_swarm_task as labels_swarm_task, stop_signal as labels_stop_signal,
}
use updater.LabelPolicy.{
  LabelPolicy, or_default, ask, merge_label_policy_defaults, is_update_disabled,
  is_self_update_target, is_agent, is_server, is_swarm_task, stop_signal,
}

-- The caller's answer where the caller gives a func, and the built-in one elsewhere.
abbrev pub Answers : {A : Type 0} → Option (Map Text → A) → (Map Text → A) → Map Text → A → Type 0
Answers none builtin labels answer = answer ≡ builtin labels
Answers (some f) builtin labels answer = answer ≡ f labels

ask-or_default :
    (o : Option (Map Text → Bool)) (builtin : Map Text → Bool) (labels : Map Text)
    → Answers o builtin labels (ask (or_default o (some builtin)) labels)
ask-or_default none builtin labels = refl
ask-or_default (some f) builtin labels = refl

signal_or_default :
    (o : Option (Map Text → Text)) (builtin : Map Text → Text) (labels : Map Text)
    → Answers o builtin labels
        (elim (or_default o (some builtin)) [ none ↦ [] | some f ↦ f labels ])
signal_or_default none builtin labels = refl
signal_or_default (some f) builtin labels = refl

module _ (p : LabelPolicy) (labels : Map Text) where
  -- After the merge each of the six questions is answered by the caller's func where there is one,
  -- and by the built-in label behaviour for exactly those that the caller left nil.
  pub merge-Answers :
      Answers p.is_update_disabled_func labels_update_disabled labels
        (is_update_disabled (merge_label_policy_defaults p) labels)
      × Answers p.is_self_update_target_func is_arcane_container labels
          (is_self_update_target (merge_label_policy_defaults p) labels)
      × Answers p.is_agent_func is_arcane_agent_container labels
          (is_agent (merge_label_policy_defaults p) labels)
      × Answers p.is_server_func is_arcane_server_container labels
          (is_server (merge_label_policy_defaults p) labels)
      × Answers p.is_swarm_task_func labels_swarm_task labels
          (is_swarm_task (merge_label_policy_defaults p) labels)
      × Answers p.stop_signal_func labels_stop_signal labels
          (stop_signal (merge_label_policy_defaults p) labels)
  unfolding merge_label_policy_defaults is_update_disabled is_self_update_target is_agent is_server
      is_swarm_task stop_signal
  merge-Answers = (
    ask-or_default p.is_update_disabled_func labels_update_disabled labels,
    ask-or_default p.is_self_update_target_func is_arcane_container labels,
    ask-or_default p.is_agent_func is_arcane_agent_container labels,
    ask-or_default p.is_server_func is_arcane_server_container labels,
    ask-or_default p.is_swarm_task_func labels_swarm_task labels,
    signal_or_default p.stop_signal_func labels_stop_signal labels,
  )
