-- ===== src/Restart/Ordering.antt =====
-- The host application's own containers restart last.
use updater.Common.{
  ℕ, ◌+◌, ◌≤◌, ◌≡◌, refl, sym, ap, ◌↔◌, inl, inr, true, List, [], ◌∷◌, ◌++◌, arith, Bool-cases,
  length, length-append, In, All, In-append_left, In-append_right, In-append_cases, All-append,
  All-of_In, Map,
}
use updater.LabelPolicy.{LabelPolicy}
use updater.Deps.{ContainerWithDeps}
use updater.Restart.Scan.{RestartPlan}
use updater.Restart.Sequence.{
  Role, normal, agent, server, role_of, same_role, with_role, order_self_update_last,
}

module _ (policy : LabelPolicy) (plans : Map RestartPlan) where
  same_role_iff : (a b : Role) → (same_role a b ≡ true) ↔ (a ≡ b)
  same_role_iff normal normal = (λ h. refl, λ h. refl)
  same_role_iff agent agent = (λ h. refl, λ h. refl)
  same_role_iff server server = (λ h. refl, λ h. refl)
  same_role_iff normal agent = (λ h. cc, λ h. cc)
  same_role_iff normal server = (λ h. cc, λ h. cc)
  same_role_iff agent normal = (λ h. cc, λ h. cc)
  same_role_iff agent server = (λ h. cc, λ h. cc)
  same_role_iff server normal = (λ h. cc, λ h. cc)
  same_role_iff server agent = (λ h. cc, λ h. cc)

  with_role-In :
      (role : Role) (cs : List ContainerWithDeps) (c : ContainerWithDeps)
      → In c (with_role policy plans role cs)
      → In c cs × (role_of policy plans c ≡ role)
  unfolding with_role
  with_role-In role [] c m = absurd m
  with_role-In role (d ∷ ds) c m = elim (Bool-cases (same_role (role_of policy plans d) role)) [
    | inl keep ↦
        let n : In c (d ∷ with_role policy plans role ds) = rw (keep, with_role) at m in
        elim n [
          | inl e ↦ (inl e, rw e ((same_role_iff _ _).0 keep))
          | inr l ↦ let (a, b) = with_role-In role ds c l in (inr a, b)
        ]
    | inr away ↦
        let n : In c (with_role policy plans role ds) = rw (away, with_role) at m in
        let (a, b) = with_role-In role ds c n in (inr a, b)
  ]

  In-with_role :
      (cs : List ContainerWithDeps) (c : ContainerWithDeps)
      → In c cs
      → In c (with_role policy plans (role_of policy plans c) cs)
  unfolding with_role
  In-with_role [] c m = absurd m
  In-with_role (d ∷ ds) c (inl e) =
      let keep : same_role (role_of policy plans d) (role_of policy plans c) ≡ true =
        (same_role_iff _ _).1 (ap (role_of policy plans) (sym e)) in
      rw (keep, with_role) (inl e)
  In-with_role (d ∷ ds) c (inr m) =
      elim (Bool-cases (same_role (role_of policy plans d) (role_of policy plans c))) [
        | inl keep ↦ rw (keep, with_role) (inr (In-with_role ds c m))
        | inr away ↦ rw (away, with_role) (In-with_role ds c m)
      ]

  -- Each candidate falls into one class.
  with_role-length :
      (cs : List ContainerWithDeps)
      → length (with_role policy plans normal cs)
          + (length (with_role policy plans agent cs) + length (with_role policy plans server cs))
        ≡ length cs
  unfolding with_role
  with_role-length [] = omega arith
  with_role-length (c ∷ cs) = by_role (with_role-length cs) (role_of policy plans c) refl
    where
      by_role :
          length (with_role policy plans normal cs)
              + (length (with_role policy plans agent cs)
                  + length (with_role policy plans server cs))
            ≡ length cs
          → (role : Role) → role_of policy plans c ≡ role
          → length (with_role policy plans normal (c ∷ cs))
              + (length (with_role policy plans agent (c ∷ cs))
                  + length (with_role policy plans server (c ∷ cs)))
            ≡ length (c ∷ cs)
      by_role ih normal e = rw (e, with_role) (omega (arith, ih))
      by_role ih agent e = rw (e, with_role) (omega (arith, ih))
      by_role ih server e = rw (e, with_role) (omega (arith, ih))

  -- The position of a class in the order.
  abbrev pub rank : Role → ℕ
  rank normal = 0
  rank agent = 1
  rank server = 2

  abbrev pub rank_of : ContainerWithDeps → ℕ
  rank_of c = rank (role_of policy plans c)

  abbrev pub Ascends : List ContainerWithDeps → Type 0
  Ascends [] = Unit
  Ascends (c ∷ cs) = All (λ d. rank_of c ≤ rank_of d) cs × Ascends cs

  Ascends-append :
      (xs ys : List ContainerWithDeps)
      → Ascends xs
      → Ascends ys
      → ((x y : ContainerWithDeps) → In x xs → In y ys → rank_of x ≤ rank_of y)
      → Ascends (xs ++ ys)
  Ascends-append [] ys h k apart = k
  Ascends-append (x ∷ xs) ys h k apart = (
    All-append _ xs ys h.0 (All-of_In _ ys (λ y m. apart x y (inl refl) m)),
    Ascends-append xs ys h.1 k (λ a b m n. apart a b (inr m) n),
  )

  -- A list of one class ascends.
  one_class :
      (role : Role) (cs : List ContainerWithDeps)
      → ((c : ContainerWithDeps) → In c cs → role_of policy plans c ≡ role)
      → Ascends cs
  one_class role [] h = tt
  one_class role (c ∷ cs) h = (
    All-of_In _ cs (λ d m. rw (h c (inl refl), h d (inr m)) (omega arith)),
    one_class role cs (λ d m. h d (inr m)),
  )

  class-Ascends :
      (role : Role) (cs : List ContainerWithDeps) → Ascends (with_role policy plans role cs)
  class-Ascends role cs = one_class role _ (λ c m. (with_role-In role cs c m).1)

  abbrev classes : List ContainerWithDeps → List ContainerWithDeps
  classes cs =
      with_role policy plans normal cs
      ++ (with_role policy plans agent cs ++ with_role policy plans server cs)

  classes-Ascends : (cs : List ContainerWithDeps) → Ascends (classes cs)
  classes-Ascends cs =
      let of : (role : Role) (c : ContainerWithDeps)
          → In c (with_role policy plans role cs)
          → role_of policy plans c ≡ role =
        λ role c m. (with_role-In role cs c m).1 in
      Ascends-append _ _ (class-Ascends normal cs)
        (Ascends-append _ _ (class-Ascends agent cs) (class-Ascends server cs)
          (λ x y m n. rw (of agent x m, of server y n) (omega arith)))
        (λ x y m n. rw (of normal x m) (omega arith))

  classes-In : (cs : List ContainerWithDeps) (c : ContainerWithDeps) → In c (classes cs) ↔ In c cs
  classes-In cs c = (
    λ m. elim (In-append_cases c (with_role policy plans normal cs) _ m) [
      | inl a ↦ (with_role-In normal cs c a).0
      | inr r ↦ elim (In-append_cases c (with_role policy plans agent cs) _ r) [
        | inl a ↦ (with_role-In agent cs c a).0
        | inr a ↦ (with_role-In server cs c a).0
      ]
    ],
    λ m. place (role_of policy plans c) (In-with_role cs c m),
  )
    where
      place : (role : Role) → In c (with_role policy plans role cs) → In c (classes cs)
      place normal m = In-append_left c _ _ m
      place agent m =
          In-append_right c (with_role policy plans normal cs) _ (In-append_left c _ _ m)
      place server m =
          In-append_right c (with_role policy plans normal cs) _
            (In-append_right c (with_role policy plans agent cs) _ m)

  -- The order is a rearrangement: it has the same candidates and as many of them. Containers that
  -- are no part of the host application come first, its agents after them, and its servers last.
  pub order_self_update_last-Ascends :
      (cs : List ContainerWithDeps)
      → Ascends (order_self_update_last cs plans policy)
        × (length (order_self_update_last cs plans policy) ≡ length cs)
        × ((c : ContainerWithDeps) → In c (order_self_update_last cs plans policy) ↔ In c cs)
  unfolding order_self_update_last
  order_self_update_last-Ascends [] = (tt, refl, λ c. (λ m. m, λ m. m))
  order_self_update_last-Ascends (c ∷ []) = ((tt, tt), refl, λ d. (λ m. m, λ m. m))
  order_self_update_last-Ascends (c ∷ d ∷ cs) =
      let all = c ∷ d ∷ cs in
      (
        classes-Ascends all,
        omega (
          arith,
          with_role-length all,
          length-append (with_role policy plans normal all)
              (with_role policy plans agent all ++ with_role policy plans server all),
          length-append (with_role policy plans agent all) (with_role policy plans server all),
        ),
        classes-In all,
      )
