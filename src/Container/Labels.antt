-- ===== src/Container/Labels.antt =====
-- The labels of the container that is created again.
use updater.Common.{
  ◌≡◌, refl, sym, ◌⊎◌, inl, inr, true, not, ◌&&◌, none, some, [], ◌∷◌, arith, if◌then◌else◌,
  Bool-cases, Option-cases, In, Text, ◌==◌, eq_iff, eq_refl, is_empty, to_lower, fold_case,
  equal_fold, has_prefix, Map, lookup, insert, lookup-insert,
}
use updater.Container.Settings.{
  oci_prefix, compose_image_label, has_key_fold, add_image_labels, set_compose_image,
  refresh_recreated_image_labels,
}

equal_fold_refl : (k : Text) → equal_fold k k ≡ true
unfolding equal_fold
equal_fold_refl k = eq_refl (fold_case k)

lookup-has_key_fold :
    (m : Map Text) (k : Text) {v : Text} → lookup m k ≡ some v → has_key_fold m k ≡ true
unfolding lookup has_key_fold
lookup-has_key_fold [] k h = cc
lookup-has_key_fold ((j, w) ∷ m) k {v} h = elim (Bool-cases (j == k)) [
  | inl same ↦
      let folds : equal_fold j k ≡ true = rw ((eq_iff j k).0 same) (equal_fold_refl k) in
      rw (folds, has_key_fold) refl
  | inr other ↦
      let rest : lookup m k ≡ some v = rw (other, lookup) at h in
      ground (arith, lookup-has_key_fold m k rest)
]

add_one : Map Text → Text → Text → Map Text
unfolding has_key_fold
add_one m key value =
    if not (has_prefix (to_lower key) oci_prefix)
    then m
    else if has_key_fold m key
    then m
    else insert m key value

add_one-keeps :
    (m : Map Text) (key value k : Text) {v : Text}
    → lookup m k ≡ some v
    → lookup (add_one m key value) k ≡ some v
unfolding add_one
add_one-keeps m key value k {v} h =
    ground (arith, lookup-insert m key k value, eq_iff key k, lookup-has_key_fold m k h)

-- The label has a key of the OCI image annotations, and its value is that of the image.
abbrev pub IsImageLabel : Map Text → Text → Text → Type 0
IsImageLabel labels k v =
    (has_prefix (to_lower k) oci_prefix ≡ true) × In {A = Text × Text} (k, v) labels

add_one-new :
    (m : Map Text) (key value k : Text) {v : Text}
    → lookup (add_one m key value) k ≡ some v
    → (lookup m k ≡ some v)
      ⊎ ((has_prefix (to_lower k) oci_prefix ≡ true) × (k ≡ key) × (v ≡ value))
unfolding add_one
add_one-new m key value k {v} h = elim (Bool-cases (has_prefix (to_lower key) oci_prefix)) [
  | inr plain ↦ inl (rw (plain, add_one) at h)
  | inl oci ↦ elim (Bool-cases (has_key_fold m key)) [
    | inl old ↦ inl (rw (oci, old, add_one) at h)
    | inr new ↦
        let at : lookup (insert m key value) k ≡ some v = rw (oci, new, add_one) at h in
        elim (Bool-cases (key == k)) [
          | inl same ↦
              let k_is : key ≡ k = (eq_iff key k).0 same in
              let v_is : some value ≡ some v = rw (lookup-insert m key k value, same) at at in
              inr (rw (← k_is) oci, sym k_is, cc)
          | inr other ↦ inl (rw (lookup-insert m key k value, other) at at)
        ]
  ]
]

add_image_labels-keeps :
    (m labels : Map Text) (k : Text) {v : Text}
    → lookup m k ≡ some v
    → lookup (add_image_labels m labels) k ≡ some v
unfolding add_image_labels add_one
add_image_labels-keeps m [] k h = h
add_image_labels-keeps m ((key, value) ∷ labels) k h =
    add_image_labels-keeps (add_one m key value) labels k (add_one-keeps m key value k h)

add_image_labels-new :
    (m labels : Map Text) (k : Text) {v : Text}
    → lookup (add_image_labels m labels) k ≡ some v
    → (lookup m k ≡ some v) ⊎ IsImageLabel labels k v
unfolding add_image_labels add_one
add_image_labels-new m [] k h = inl h
add_image_labels-new m ((key, value) ∷ labels) k {v} h =
    elim (add_image_labels-new (add_one m key value) labels k h) [
      | inr (oci, m') ↦ inr (oci, inr m')
      | inl early ↦ elim (add_one-new m key value k early) [
        | inl old ↦ inl old
        | inr (oci, a, b) ↦ inr (oci, inl (pair_eq a b))
      ]
    ]
  where
    pair_eq : {a b c d : Text} → a ≡ c → b ≡ d → ◌≡◌ {A = Text × Text} (a, b) (c, d)
    pair_eq e f = cc

-- The value under `k` of a label whose value was `v`: the label of Docker Compose for the image
-- has the ID of the new image.
abbrev pub recreated_value : Text → Text → Text → Text
recreated_value image_id k v =
    if not (is_empty image_id) && equal_fold k compose_image_label then image_id else v

set_compose_image-lookup :
    (image_id : Text) (m : Map Text) (k : Text)
    → lookup (set_compose_image image_id m) k ≡ elim (lookup m k) [
      | none ↦ none
      | some v ↦ some (if equal_fold k compose_image_label then image_id else v)
    ]
unfolding set_compose_image lookup
set_compose_image-lookup image_id [] k = refl
set_compose_image-lookup image_id ((j, w) ∷ m) k = elim (Bool-cases (j == k)) [
  | inl same ↦ rw ((eq_iff j k).0 same, eq_refl k, set_compose_image, lookup)
  | inr other ↦ rw (other, set_compose_image, lookup) (set_compose_image-lookup image_id m k)
]

-- What the last loop makes of the labels before it.
set_labels-lookup :
    (c i : Map Text) (image_id k : Text)
    → lookup (refresh_recreated_image_labels c i image_id) k
      ≡ elim (lookup (add_image_labels c i) k) [
        | none ↦ none
        | some v ↦ some (recreated_value image_id k v)
      ]
unfolding refresh_recreated_image_labels
set_labels-lookup c i image_id k = elim (Bool-cases (is_empty image_id)) [
  | inl blank ↦ elim (Option-cases (lookup (add_image_labels c i) k)) [
    | inl e ↦ rw (blank, refresh_recreated_image_labels, e)
    | inr (v, e) ↦ rw (blank, refresh_recreated_image_labels, e) (rw blank refl)
  ]
  | inr named ↦ elim (Option-cases (lookup (add_image_labels c i) k)) [
    | inl e ↦ rw (
      named,
      refresh_recreated_image_labels,
      set_compose_image-lookup image_id (add_image_labels c i) k,
      e,
    )
    | inr (v, e) ↦
        rw
          (
            named,
            refresh_recreated_image_labels,
            set_compose_image-lookup image_id (add_image_labels c i) k,
            e,
          )
          (rw named refl)
  ]
]

-- The labels of a container that is created again: every label that it had keeps its value, except
-- that the label of Docker Compose for the image becomes the ID of the new image where that is
-- known. Whatever else it has comes from the new image, under a key of the OCI annotations.
pub refresh_recreated_image_labels-lookup :
    (c i : Map Text) (image_id k v : Text)
    → (lookup c k ≡ some v
        → lookup (refresh_recreated_image_labels c i image_id) k
          ≡ some (recreated_value image_id k v))
      × (lookup (refresh_recreated_image_labels c i image_id) k ≡ some v
          → (w : Text) × (v ≡ recreated_value image_id k w)
            × ((lookup c k ≡ some w) ⊎ IsImageLabel i k w))
refresh_recreated_image_labels-lookup c i image_id k v = (
  λ h. rw (set_labels-lookup c i image_id k, add_image_labels-keeps c i k h) refl,
  λ h. elim (Option-cases (lookup (add_image_labels c i) k)) [
    | inl gone ↦ let no : none ≡ some v = rw (set_labels-lookup c i image_id k, gone) at h in cc
    | inr (w, found) ↦
        let is : some (recreated_value image_id k w) ≡ some v =
          rw (set_labels-lookup c i image_id k, found) at h in
        let same : v ≡ recreated_value image_id k w = cc in
        (w, same, add_image_labels-new c i k found)
  ],
)
