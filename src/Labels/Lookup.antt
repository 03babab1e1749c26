-- ===== src/Labels/Lookup.antt =====
-- What `lookup_label` finds, whatever the order of the map.
use updater.Common.{
  ◌≡◌, sym, ap, ◌∙◌, subst, ◌↔◌, inl, inr, Option, none, some, [], ◌∷◌, map, arith, Bool-cases,
  Option-cases, In, Distinct, Includes, Text, eq_iff, fold_case, equal_fold, Map,
}
use updater.Labels.{lookup_label}

-- No two keys of the map are equal under case folding.
abbrev pub IsFoldDistinct : Map Text → Type 0
IsFoldDistinct m = Distinct (map (λ entry. fold_case entry.0) m)

In-fold :
    (key value : Text) (m : Map Text)
    → In (key, value) m
    → In (fold_case key) (map (λ entry. fold_case entry.0) m)
In-fold key value (entry ∷ m) (inl e) = inl (ap (λ (x : Text × Text). fold_case x.0) e)
In-fold key value (entry ∷ m) (inr h) = inr (In-fold key value m h)
In-fold key value [] h = absurd h

lookup_label-In :
    (m : Map Text) (target value : Text)
    → lookup_label m target ≡ some value
    → (key : Text) × In (key, value) m × (fold_case key ≡ fold_case target)
unfolding lookup_label equal_fold
lookup_label-In [] target value h = cc
lookup_label-In ((key, v) ∷ m) target value h = elim (Bool-cases (equal_fold key target)) [
  | inl same ↦
      let found : some v ≡ some value = rw same at h in
      (key, inl (ground arith), (eq_iff _ _).0 same)
  | inr other ↦
      let (k, listed, e) = lookup_label-In m target value (rw other at h) in (k, inr listed, e)
]

In-lookup_label :
    (m : Map Text) (target key value : Text)
    → IsFoldDistinct m
    → In (key, value) m
    → fold_case key ≡ fold_case target
    → lookup_label m target ≡ some value
unfolding lookup_label equal_fold
In-lookup_label [] target key value d h e = absurd h
In-lookup_label ((k, v) ∷ m) target key value d (inl here) e =
    ground (arith, eq_iff (fold_case k) (fold_case target))
In-lookup_label ((k, v) ∷ m) target key value d (inr later) e =
    elim (Bool-cases (equal_fold k target)) [
      | inl same ↦ absurd (
          d.0 (
            subst (λ f. In f (map (λ entry. fold_case entry.0) m)) (e ∙ sym ((eq_iff _ _).0 same))
              (In-fold key value m later)))
      | inr other ↦ rw other (In-lookup_label m target key value d.1 later e)
    ]

-- In a map whose keys differ by more than case, a label lookup finds exactly the value of the
-- entry whose key equals the label up to case.
pub lookup_label-eq-some_iff :
    (m : Map Text) (target value : Text)
    → IsFoldDistinct m
    → (lookup_label m target ≡ some value)
      ↔ ((key : Text) × In (key, value) m × (fold_case key ≡ fold_case target))
lookup_label-eq-some_iff m target value d = (
  lookup_label-In m target value,
  λ (key, listed, e). In-lookup_label m target key value d listed e,
)

-- Go does not fix the order in which `range` meets the entries of a map. In maps whose keys differ
-- by more than case the order does not matter: two lists of the same entries give the same label.
lookup_label_order :
    (m n : Map Text) (target : Text)
    → IsFoldDistinct m
    → IsFoldDistinct n
    → Includes m n
    → Includes n m
    → lookup_label m target ≡ lookup_label n target
lookup_label_order m n target dm dn mn nm = elim (Option-cases (lookup_label m target)) [
  | inl missing ↦ elim (Option-cases (lookup_label n target)) [
    | inl absent ↦ missing ∙ sym absent
    | inr (value, found) ↦ absurd (clash missing (moved n m dm nm found))
  ]
  | inr (value, found) ↦ found ∙ sym (moved m n dn mn found)
]
  where
    moved :
        (a b : Map Text) {value : Text}
        → IsFoldDistinct b
        → Includes a b
        → lookup_label a target ≡ some value
        → lookup_label b target ≡ some value
    moved a b {value} d ab found =
        let (key, listed, e) = lookup_label-In a target value found in
        In-lookup_label b target key value d (ab (key, value) listed) e

    clash : {o : Option Text} {value : Text} → o ≡ none → o ≡ some value → ⊥
    clash p q = cc
