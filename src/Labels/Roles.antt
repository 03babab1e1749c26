-- ===== src/Labels/Roles.antt =====
-- The roles that labels give a container, and the gate for redeploying the Arcane server.
use mathlib.Core.List.{append-nil}
use updater.Common.{
  ◌≡◌, refl, sym, ◌∙◌, ◌≢◌, ◌↔◌, ◌⊎◌, inl, inr, true, false, ◌&&◌, ◌||◌, Option, none, some, [],
  ◌++◌, arith, if◌then◌else◌, Bool-cases, Text, ◌==◌, eq_iff, is_empty, is_empty_iff, trim_space,
  has_prefix, has_prefix_iff, Map,
}
use updater.Labels.{
  is_arcane_container, is_arcane_agent_container, is_arcane_server_container, container_ids_match,
  should_disable_arcane_server_redeploy,
}

-- An Arcane container is a server or an agent, and never both.
arcane_roles :
    (labels : Map Text)
    → (is_arcane_container labels
        ≡ (is_arcane_server_container labels || is_arcane_agent_container labels))
      × ((is_arcane_server_container labels && is_arcane_agent_container labels) ≡ false)
unfolding is_arcane_container is_arcane_server_container
arcane_roles labels = ground arith

-- Neither text is empty, and one is a prefix of the other.
abbrev pub Overlaps : Text → Text → Type 0
Overlaps x y =
    (x ≢ []) × (y ≢ []) × (((rest : Text) × (x ≡ y ++ rest)) ⊎ ((rest : Text) × (y ≡ x ++ rest)))

overlap_cases :
    (x y : Text)
    → ((x == y || has_prefix x y || has_prefix y x) ≡ true)
      ↔ (((rest : Text) × (x ≡ y ++ rest)) ⊎ ((rest : Text) × (y ≡ x ++ rest)))
overlap_cases x y = (to, from)
  where
    to :
        (x == y || has_prefix x y || has_prefix y x) ≡ true
        → ((rest : Text) × (x ≡ y ++ rest)) ⊎ ((rest : Text) × (y ≡ x ++ rest))
    to h = elim (Bool-cases (has_prefix x y)) [
      | inl p ↦ inl ((has_prefix_iff x y).0 p)
      | inr np ↦ elim (Bool-cases (has_prefix y x)) [
        | inl q ↦ inr ((has_prefix_iff y x).0 q)
        | inr nq ↦
            let same : x ≡ y = ground (arith, eq_iff x y) in inl ([], same ∙ sym (append-nil y))
      ]
    ]

    from :
        ((rest : Text) × (x ≡ y ++ rest)) ⊎ ((rest : Text) × (y ≡ x ++ rest))
        → (x == y || has_prefix x y || has_prefix y x) ≡ true
    from (inl p) = let q : has_prefix x y ≡ true = (has_prefix_iff x y).1 p in ground arith
    from (inr p) = let q : has_prefix y x ≡ true = (has_prefix_iff y x).1 p in ground arith

ids_match_cases :
    (x y : Text)
    → ((if is_empty x || is_empty y then false else x == y || has_prefix x y || has_prefix y x)
        ≡ true)
      ↔ Overlaps x y
ids_match_cases x y =
    let (to, from) = overlap_cases x y in
    (
      λ h. (ground (arith, is_empty_iff x), ground (arith, is_empty_iff y), to (ground (arith))),
      λ (nx, ny, o). ground (arith, from o, is_empty_iff x, is_empty_iff y),
    )

container_ids_match_iff :
    (a b : Text) → (container_ids_match a b ≡ true) ↔ Overlaps (trim_space a) (trim_space b)
unfolding container_ids_match
container_ids_match_iff a b = ids_match_cases (trim_space a) (trim_space b)

-- Redeploying is blocked exactly for an Arcane server container of which the updater cannot tell
-- that it is another one: the own container ID is unknown (its lookup failed, or it is blank), or
-- one of the two IDs, trimmed and not empty, is a prefix of the other.
pub should_disable_redeploy_iff :
    (labels : Map Text) (container_id current_id : Text) (current_err : Option Text)
    → (should_disable_arcane_server_redeploy labels container_id current_id current_err ≡ true) ↔ (
        (is_arcane_server_container labels ≡ true)
        × ((current_err ≢ none)
            ⊎ ((trim_space current_id ≡ [])
                ⊎ Overlaps (trim_space container_id) (trim_space current_id))))
unfolding should_disable_arcane_server_redeploy
should_disable_redeploy_iff labels container_id current_id (some error) =
    (λ h. (h, inl (λ e. cc)), λ (server, _). server)
should_disable_redeploy_iff labels container_id current_id none =
    let (blank, blank') = is_empty_iff (trim_space current_id) in
    let (to, from) = container_ids_match_iff container_id current_id in
    elim (Bool-cases (is_arcane_server_container labels)) [
      | inr other ↦ (λ h. absurd (ground arith), λ p. absurd (ground (arith, p.0)))
      | inl server ↦ elim (Bool-cases (is_empty (trim_space current_id))) [
        | inl unknown ↦ (λ h. (server, inr (inl (blank unknown))), λ p. ground arith)
        | inr known ↦ (
          λ h. (server, inr (inr (to (ground arith)))),
          λ (_, p). elim p [
            | inl e ↦ absurd (e refl)
            | inr (inl e) ↦ absurd (ground (arith, blank' e))
            | inr (inr o) ↦ ground (arith, from o)
          ],
        )
      ]
    ]
