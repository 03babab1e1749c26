-- ===== src/Compat/Versions.antt =====
-- The order of API versions.
use updater.Common.{
  ◌≡◌, refl, sym, ap, ◌∙◌, subst, ◌↔◌, ◌⊎◌, inl, inr, true, false, some, arith, Option-cases, Text,
}
use updater.Compat.{Version, version_at_least, parse_api_version, api_version_at_least}
use updater.Compat.Order.{
  IsAtLeast, version_trans, version_total, version_at_least_iff, version_antisym,
}

abbrev pub IsVersion : Text → Type 0
IsVersion t = (v : Version) × (parse_api_version t ≡ some v)

at_least-parts :
    (s t : Text)
    → api_version_at_least s t ≡ true
    → (v w : Version) × (parse_api_version s ≡ some v)
      × (parse_api_version t ≡ some w)
      × (version_at_least v w ≡ true)
unfolding api_version_at_least
at_least-parts s t h = elim (Option-cases (parse_api_version s)) [
  | inl e ↦ let no : false ≡ true = rw (e, api_version_at_least) at h in absurd (ground arith)
  | inr (v, e) ↦ elim (Option-cases (parse_api_version t)) [
    | inl f ↦ let no : false ≡ true = rw (e, f, api_version_at_least) at h in absurd (ground arith)
    | inr (w, f) ↦ (v, w, e, f, rw (e, f, api_version_at_least) at h)
  ]
]

at_least_of :
    (s t : Text) {v w : Version}
    → parse_api_version s ≡ some v
    → parse_api_version t ≡ some w
    → api_version_at_least s t ≡ version_at_least v w
unfolding api_version_at_least
at_least_of s t e f = rw (e, f, api_version_at_least) refl

-- The comparison of API versions holds exactly if both texts parse as versions and the first is
-- at least the second, by the first component that differs. It is transitive, it compares any two
-- texts that parse, and two texts that compare in both directions parse as the same version.
pub api_version_at_least_lem :
    (s t u : Text)
    → ((api_version_at_least s t ≡ true) ↔ (
        (v w : Version) × (parse_api_version s ≡ some v)
        × (parse_api_version t ≡ some w)
        × IsAtLeast v w))
      × (api_version_at_least s t ≡ true
          → api_version_at_least t u ≡ true
          → api_version_at_least s u ≡ true)
      × (IsVersion s
          → IsVersion t
          → (api_version_at_least s t ≡ true) ⊎ (api_version_at_least t s ≡ true))
      × (api_version_at_least s t ≡ true
          → api_version_at_least t s ≡ true
          → parse_api_version s ≡ parse_api_version t)
api_version_at_least_lem s t u = (
  (
    λ h. let (v, w, e, f, a) = at_least-parts s t h in (v, w, e, f, (version_at_least_iff v w).0 a),
    λ (v, w, e, f, a). at_least_of s t e f ∙ (version_at_least_iff v w).1 a,
  ),
  λ h k.
      let (v, w, e, f, a) = at_least-parts s t h in
      let (w', x, f', g, b) = at_least-parts t u k in
      let same : some w' ≡ some w = sym f' ∙ f in
      let same' : w' ≡ w = cc in
      at_least_of s u e g
      ∙ version_trans v w x a (subst (λ y. version_at_least y x ≡ true) same' b),
  λ (v, e) (w, f). elim (version_total v w) [
    | inl a ↦ inl (at_least_of s t e f ∙ a)
    | inr a ↦ inr (at_least_of t s f e ∙ a)
  ],
  λ h k.
      let (v, w, e, f, a) = at_least-parts s t h in
      let b : version_at_least w v ≡ true = sym (at_least_of t s f e) ∙ k in
      let same : v ≡ w =
        version_antisym v w ((version_at_least_iff v w).0 a) ((version_at_least_iff w v).0 b) in
      e ∙ ap some same ∙ sym f,
)
