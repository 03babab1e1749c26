-- ===== src/LabelPolicy.antt =====
-- labelpolicy.go: which containers the updater may touch. A nil func is `none`.
pub mod Merge
use updater.Common.{
  ℕ, zero, suc, ◌+◌, ◌-◌, ◌*◌, ◌≤◌, ◌<◌, ◌≡◌, refl, sym, ap, ◌∙◌, subst, ◌≢◌, ◌↔◌, ◌⊎◌, inl, inr,
  Bool, true, false, not, ◌&&◌, ◌||◌, Option, none, some, List, [], ◌∷◌, ◌++◌, map, arith, ltb, leb,
  num_eq, if◌then◌else◌, ltb→lt, leb→le, num_eq_iff, Bool-cases, Option-cases, length, get_elem?,
  set, take, drop, last?, length-append, In, All, Distinct, Includes, In-append_left,
  In-append_right, In-append_cases, In-middle, All-append, All-In, All-of_In, All-map,
  Distinct-append, Result, ok, err, Text, codes, ◌==◌, eq_iff, eq_refl, is_empty, is_empty_iff,
  is_space, trim_left, trim_right, trim_left, trim_right, trim_space, to_lower, to_upper, fold_case,
  equal_fold, has_prefix, trim_prefix_of, trim_prefix, trim_suffix, contains, cut, before_sep,
  split, join, text_lt, trim_space_idem, has_prefix_iff, Map, lookup, insert, delete, elem,
  lookup-insert, lookup-delete, elem_iff, not-In_of_elem, text_functions, sort_texts, sort_texts-In,
  sort_texts-Distinct,
}
use updater.Labels.{
  is_update_disabled as labels_update_disabled, is_arcane_container, is_arcane_agent_container,
  is_arcane_server_container, is_swarm_task as labels_swarm_task, stop_signal as labels_stop_signal,
}

pub record LabelPolicy : Type 0 where
  pub is_update_disabled_func : Option (Map Text → Bool)
  pub is_self_update_target_func : Option (Map Text → Bool)
  pub is_agent_func : Option (Map Text → Bool)
  pub is_server_func : Option (Map Text → Bool)
  pub is_swarm_task_func : Option (Map Text → Bool)
  pub stop_signal_func : Option (Map Text → Text)

unfoldable pub default_label_policy : LabelPolicy
unfolding labels_update_disabled is_arcane_container is_arcane_agent_container
    is_arcane_server_container labels_swarm_task labels_stop_signal
default_label_policy = record {
  is_update_disabled_func = some labels_update_disabled;
  is_self_update_target_func = some is_arcane_container;
  is_agent_func = some is_arcane_agent_container;
  is_server_func = some is_arcane_server_container;
  is_swarm_task_func = some labels_swarm_task;
  stop_signal_func = some labels_stop_signal;
}

-- `if f == nil { f = default }`.
abbrev or_default : {A : Type 0} → Option A → Option A → Option A
or_default none d = d
or_default (some f) d = some f

unfoldable pub merge_label_policy_defaults : LabelPolicy → LabelPolicy
unfolding default_label_policy
merge_label_policy_defaults policy =
    let defaults = default_label_policy in
    record {
      is_update_disabled_func =
          or_default policy.is_update_disabled_func defaults.is_update_disabled_func;
      is_self_update_target_func =
          or_default policy.is_self_update_target_func defaults.is_self_update_target_func;
      is_agent_func = or_default policy.is_agent_func defaults.is_agent_func;
      is_server_func = or_default policy.is_server_func defaults.is_server_func;
      is_swarm_task_func = or_default policy.is_swarm_task_func defaults.is_swarm_task_func;
      stop_signal_func = or_default policy.stop_signal_func defaults.stop_signal_func;
    }

-- `f != nil && f(labels)`.
abbrev ask : Option (Map Text → Bool) → Map Text → Bool
ask none labels = false
ask (some f) labels = f labels

unfoldable pub is_update_disabled : LabelPolicy → Map Text → Bool
is_update_disabled p labels = ask p.is_update_disabled_func labels

unfoldable pub is_self_update_target : LabelPolicy → Map Text → Bool
is_self_update_target p labels = ask p.is_self_update_target_func labels

unfoldable pub is_agent : LabelPolicy → Map Text → Bool
is_agent p labels = ask p.is_agent_func labels

unfoldable pub is_server : LabelPolicy → Map Text → Bool
is_server p labels = ask p.is_server_func labels

unfoldable pub is_swarm_task : LabelPolicy → Map Text → Bool
is_swarm_task p labels = ask p.is_swarm_task_func labels

unfoldable pub stop_signal : LabelPolicy → Map Text → Text
stop_signal p labels = elim p.stop_signal_func [ none ↦ [] | some f ↦ f labels ]
