-- ===== src/Compat/Order.antt =====
-- The order of parsed API versions, by the first component that differs.
use updater.Common.{
  ◌≡◌, refl, sym, ap, ◌∙◌, ◌↔◌, ◌⊎◌, inl, inr, Bool, true, false, arith, if◌then◌else◌, Bool-cases,
}
use updater.Common.Int.{ℤ, pos, negsuc, int_lt}
use updater.Compat.{Version, version_at_least}

lt_asym : (a b : ℤ) → int_lt a b ≡ true → int_lt b a ≡ false
lt_asym (pos m) (pos n) h = ground arith
lt_asym (pos m) (negsuc n) h = cc
lt_asym (negsuc m) (pos n) h = refl
lt_asym (negsuc m) (negsuc n) h = ground arith

lt_eq : (a b : ℤ) → int_lt a b ≡ false → int_lt b a ≡ false → a ≡ b
lt_eq (pos m) (pos n) h k = ap pos (ground arith)
lt_eq (pos m) (negsuc n) h k = cc
lt_eq (negsuc m) (pos n) h k = cc
lt_eq (negsuc m) (negsuc n) h k = ap negsuc (ground arith)

lt_trans : (a b c : ℤ) → int_lt a b ≡ true → int_lt b c ≡ true → int_lt a c ≡ true
lt_trans (pos m) (pos n) (pos o) h k = ground arith
lt_trans (pos m) (negsuc n) c h k = cc
lt_trans a (pos n) (negsuc o) h k = cc
lt_trans (negsuc m) (pos n) (pos o) h k = refl
lt_trans (negsuc m) (negsuc n) (pos o) h k = refl
lt_trans (negsuc m) (negsuc n) (negsuc o) h k = ground arith

-- One component decides, or all that follow.
abbrev at_least : ℤ → ℤ → Bool → Bool
at_least a b rest = if int_lt b a then true else if int_lt a b then false else rest

at_least_trans :
    (a b c : ℤ) (p q r : Bool)
    → (p ≡ true → q ≡ true → r ≡ true)
    → at_least a b p ≡ true
    → at_least b c q ≡ true
    → at_least a c r ≡ true
at_least_trans a b c p q r h f g = elim (Bool-cases (int_lt b a)) [
  | inl ba ↦ elim (Bool-cases (int_lt c b)) [
    | inl cb ↦ rw (lt_trans c b a cb ba) refl
    | inr cb ↦ elim (Bool-cases (int_lt b c)) [
      | inl bc ↦ absurd (ground arith)
      | inr bc ↦ rw (← lt_eq b c bc cb, ba) refl
    ]
  ]
  | inr ba ↦ elim (Bool-cases (int_lt a b)) [
    | inl ab ↦ absurd (ground arith)
    | inr ab ↦
        let same : a ≡ b = lt_eq a b ab ba in
        let f' : p ≡ true = rw (ba, ab) at f in rw same (last (h f') g)
  ]
]
  where
    last : (q ≡ true → r ≡ true) → at_least b c q ≡ true → at_least b c r ≡ true
    last k g = ground arith

at_least_total :
    (a b : ℤ) (p q : Bool)
    → (p ≡ true) ⊎ (q ≡ true)
    → (at_least a b p ≡ true) ⊎ (at_least b a q ≡ true)
at_least_total a b p q h = elim (Bool-cases (int_lt b a)) [
  | inl ba ↦ inl (rw ba refl)
  | inr ba ↦ elim (Bool-cases (int_lt a b)) [ inl ab ↦ inr (rw ab refl) | inr ab ↦ rw (ba, ab) h ]
]

version_at_least-at_least :
    (v w : Version)
    → version_at_least v w
      ≡ at_least v.major w.major (at_least v.minor w.minor (at_least v.patch w.patch true))
unfolding version_at_least
version_at_least-at_least v w = by_patch (int_lt w.patch v.patch) (int_lt v.patch w.patch) refl refl
  where
    by_patch :
        (a b : Bool)
        → int_lt w.patch v.patch ≡ a
        → int_lt v.patch w.patch ≡ b
        → version_at_least v w
          ≡ at_least v.major w.major (at_least v.minor w.minor (at_least v.patch w.patch true))
    by_patch true b e f = rw (e, version_at_least) refl
    by_patch false true e f = rw (e, f, version_at_least) refl
    by_patch false false e f = rw (e, f, version_at_least) refl

pub version_trans :
    (u v w : Version)
    → version_at_least u v ≡ true
    → version_at_least v w ≡ true
    → version_at_least u w ≡ true
version_trans u v w h k =
    let h' = sym (version_at_least-at_least u v) ∙ h in
    let k' = sym (version_at_least-at_least v w) ∙ k in
    version_at_least-at_least u w
    ∙ at_least_trans u.major v.major w.major _ _ _
        (at_least_trans u.minor v.minor w.minor _ _ _
          (at_least_trans u.patch v.patch w.patch true true true (λ a b. refl)))
        h' k'

pub version_total : (v w : Version) → (version_at_least v w ≡ true) ⊎ (version_at_least w v ≡ true)
version_total v w =
    elim (at_least_total v.major w.major _ _
      (at_least_total v.minor w.minor _ _ (at_least_total v.patch w.patch true true (inl refl)))) [
        | inl e ↦ inl (version_at_least-at_least v w ∙ e)
        | inr e ↦ inr (version_at_least-at_least w v ∙ e)
      ]

at_least_iff :
    (a b : ℤ) (rest : Bool)
    → (at_least a b rest ≡ true) ↔ ((int_lt b a ≡ true) ⊎ ((a ≡ b) × (rest ≡ true)))
at_least_iff a b rest = elim (Bool-cases (int_lt b a)) [
  | inl ba ↦ (λ h. inl ba, λ h. rw ba refl)
  | inr ba ↦ elim (Bool-cases (int_lt a b)) [
    | inl ab ↦ (
      λ h. let no : false ≡ true = rw (ba, ab) at h in absurd (ground arith),
      λ h. elim h [
        | inl x ↦ let no : true ≡ false = sym x ∙ ba in absurd (ground arith)
        | inr (e, r) ↦
            let no : true ≡ false = sym ab ∙ ap (λ x. int_lt x b) e ∙ ap (int_lt b) (sym e) ∙ ba in
            absurd (ground arith)
      ],
    )
    | inr ab ↦ (
      λ h. inr (lt_eq a b ab ba, rw (ba, ab) at h),
      λ h. elim h [
        | inl x ↦ let no : true ≡ false = sym x ∙ ba in absurd (ground arith)
        | inr (e, r) ↦ rw (ba, ab) r
      ],
    )
  ]
]

-- A version follows another where the first component that differs is greater, or none differs.
abbrev pub IsAtLeast : Version → Version → Type 0
IsAtLeast v w =
    (int_lt w.major v.major ≡ true)
    ⊎ ((v.major ≡ w.major)
        × ((int_lt w.minor v.minor ≡ true)
            ⊎ ((v.minor ≡ w.minor) × ((int_lt w.patch v.patch ≡ true) ⊎ (v.patch ≡ w.patch)))))

at_least_of_parts :
    (v w : Version)
    → IsAtLeast v w
    → at_least v.major w.major (at_least v.minor w.minor (at_least v.patch w.patch true)) ≡ true
at_least_of_parts v w h = (at_least_iff v.major w.major _).1 (elim h [
  | inl m ↦ inl m
  | inr (e, r) ↦ inr (
    e,
    (at_least_iff v.minor w.minor _).1 (elim r [
      | inl m ↦ inl m
      | inr (f, q) ↦ inr (
        f,
        (at_least_iff v.patch w.patch true).1 (elim q [ inl m ↦ inl m | inr g ↦ inr (g, refl) ]),
      )
    ]),
  )
])

at_least_parts :
    (v w : Version)
    → at_least v.major w.major (at_least v.minor w.minor (at_least v.patch w.patch true)) ≡ true
    → IsAtLeast v w
at_least_parts v w h = elim ((at_least_iff v.major w.major _).0 h) [
  | inl m ↦ inl m
  | inr (e, r) ↦ inr (
    e,
    elim ((at_least_iff v.minor w.minor _).0 r) [
      | inl m ↦ inl m
      | inr (f, q) ↦
          inr (
            f,
            elim ((at_least_iff v.patch w.patch true).0 q) [ inl m ↦ inl m | inr (g, _) ↦ inr g ],
          )
    ],
  )
]

pub version_at_least_iff : (v w : Version) → (version_at_least v w ≡ true) ↔ IsAtLeast v w
version_at_least_iff v w = (
  λ h. at_least_parts v w (sym (version_at_least-at_least v w) ∙ h),
  λ h. version_at_least-at_least v w ∙ at_least_of_parts v w h,
)

not_below : (a b : ℤ) → int_lt a b ≡ true → int_lt b a ≡ true → ⊥
not_below a b h k = let no : true ≡ false = sym k ∙ lt_asym a b h in absurd (ground arith)

not_self : (a b : ℤ) → int_lt a b ≡ true → b ≡ a → ⊥
not_self a b h e = not_below a b h (ap (int_lt b) (sym e) ∙ ap (λ x. int_lt x b) e ∙ h)

pub version_antisym : (v w : Version) → IsAtLeast v w → IsAtLeast w v → v ≡ w
version_antisym v w (inl h) (inl k) = absurd (not_below w.major v.major h k)
version_antisym v w (inl h) (inr (e, k)) = absurd (not_self w.major v.major h (sym e))
version_antisym v w (inr (e, h)) (inl k) = absurd (not_self v.major w.major k (sym e))
version_antisym v w (inr (e, inl h)) (inr (_, inl k)) = absurd (not_below w.minor v.minor h k)
version_antisym v w (inr (e, inl h)) (inr (_, inr (f, k))) =
    absurd (not_self w.minor v.minor h (sym f))
version_antisym v w (inr (e, inr (f, h))) (inr (_, inl k)) =
    absurd (not_self v.minor w.minor k (sym f))
version_antisym v w (inr (e, inr (f, inl h))) (inr (_, inr (_, inl k))) =
    absurd (not_below w.patch v.patch h k)
version_antisym v w (inr (e, inr (f, inl h))) (inr (_, inr (_, inr g))) =
    absurd (not_self w.patch v.patch h (sym g))
version_antisym v w (inr (e, inr (f, inr g))) (inr (_, inr (_, inl k))) =
    absurd (not_self v.patch w.patch k (sym g))
version_antisym v w (inr (e, inr (f, inr g))) (inr (_, inr (_, inr _))) = cc
