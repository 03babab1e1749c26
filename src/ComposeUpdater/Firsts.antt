-- ===== src/ComposeUpdater/Firsts.antt =====
-- `normalizeComposeServices` against a definition by recursion.
use updater.Common.{
  ◌≡◌, refl, sym, ap, ◌∙◌, ◌≢◌, ◌↔◌, inl, inr, true, List, [], ◌∷◌, ◌++◌, arith, if◌then◌else◌,
  Bool-cases, In, Distinct, Text, ◌==◌, eq_iff, is_empty, trim_space, elem,
}
use mathlib.Core.List.{append_assoc, append-nil}
use updater.Compose.{trimmed_parts}
use updater.ComposeUpdater.Services.{normalize_services, normalize_compose_services}

abbrev pub without : Text → List Text → List Text
without a [] = []
without a (x ∷ xs) = if x == a then without a xs else x ∷ without a xs

-- The list without the repetitions of what came before.
abbrev pub first_of_each : List Text → List Text
first_of_each [] = []
first_of_each (x ∷ xs) = x ∷ without x (first_of_each xs)

abbrev without_all : List Text → List Text → List Text
without_all seen [] = []
without_all seen (x ∷ xs) = if elem x seen then without_all seen xs else x ∷ without_all seen xs

without_all-nil : (xs : List Text) → without_all [] xs ≡ xs
unfolding elem
without_all-nil [] = refl
without_all-nil (x ∷ xs) = rw (without_all-nil xs) refl

without_all-cons :
    (a : Text) (seen xs : List Text) → without_all (a ∷ seen) xs ≡ without_all seen (without a xs)
unfolding elem
without_all-cons a seen [] = refl
without_all-cons a seen (x ∷ xs) =
    ground (arith, without_all-cons a seen xs, eq_iff x a, eq_iff a x)

without_all-seen :
    (a : Text) (seen xs : List Text)
    → elem a seen ≡ true
    → without_all seen (without a xs) ≡ without_all seen xs
without_all-seen a seen [] h = refl
without_all-seen a seen (x ∷ xs) h = elim (Bool-cases (x == a)) [
  | inl e ↦
      let k : elem x seen ≡ true = rw ((eq_iff x a).0 e) h in
      rw (e, k) (without_all-seen a seen xs h)
  | inr e ↦ rw e (elim (Bool-cases (elem x seen)) [
    | inl f ↦ rw f (without_all-seen a seen xs h)
    | inr f ↦ rw f (ap (◌∷◌ x) (without_all-seen a seen xs h))
  ])
]

normalize_services-first_of_each :
    (services seen out : List Text)
    → normalize_services seen out services
      ≡ out ++ without_all seen (first_of_each (trimmed_parts services))
unfolding normalize_services trimmed_parts
normalize_services-first_of_each [] seen out = sym (append-nil out)
normalize_services-first_of_each (service ∷ services) seen out =
    elim (Bool-cases (is_empty (trim_space service))) [
      | inl e ↦
          rw (normalize_services, trimmed_parts, e)
            (normalize_services-first_of_each services seen out)
      | inr e ↦ elim (Bool-cases (elem (trim_space service) seen)) [
        | inl f ↦
            rw
              (
                normalize_services,
                trimmed_parts,
                e,
                f,
                without_all-seen (trim_space service) seen (first_of_each (trimmed_parts services))
                    f,
              )
              (normalize_services-first_of_each services seen out)
        | inr f ↦
            rw (normalize_services, trimmed_parts, e, f)
              (normalize_services-first_of_each services (trim_space service ∷ seen)
                  (out ++ trim_space service ∷ [])
                ∙ ap (λ ys. (out ++ trim_space service ∷ []) ++ ys)
                    (without_all-cons (trim_space service) seen
                      (first_of_each (trimmed_parts services)))
                ∙ append_assoc out (trim_space service ∷ []) _)
      ]
    ]

without-In : (a b : Text) (xs : List Text) → In b (without a xs) ↔ ((b ≢ a) × In b xs)
without-In a b [] = ground arith
without-In a b (x ∷ xs) = ground (arith, eq_iff x a, without-In a b xs)

without-Distinct : (a : Text) (xs : List Text) → Distinct xs → Distinct (without a xs)
without-Distinct a [] h = tt
without-Distinct a (x ∷ xs) h = elim (Bool-cases (x == a)) [
  | inl e ↦ rw e (without-Distinct a xs h.1)
  | inr e ↦ rw e (λ m. h.0 ((without-In a x xs).0 m).1, without-Distinct a xs h.1)
]

first_of_each-Distinct : (xs : List Text) → Distinct (first_of_each xs)
first_of_each-Distinct [] = tt
first_of_each-Distinct (x ∷ xs) = (
  λ m. ((without-In x x (first_of_each xs)).0 m).0 refl,
  without-Distinct x (first_of_each xs) (first_of_each-Distinct xs),
)

-- The services of the command are the names given, trimmed, without the blank ones and without
-- the repetitions of what came before, in the order given; no two are the same.
pub normalize_compose_services-first_of_each :
    (services : List Text)
    → (normalize_compose_services services ≡ first_of_each (trimmed_parts services))
      × Distinct (normalize_compose_services services)
unfolding normalize_compose_services
normalize_compose_services-first_of_each services =
    let e : normalize_compose_services services ≡ first_of_each (trimmed_parts services) =
      normalize_services-first_of_each services [] [] ∙ without_all-nil _ in
    (e, rw e (first_of_each-Distinct (trimmed_parts services)))
