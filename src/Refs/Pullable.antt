-- ===== src/Refs/Pullable.antt =====
-- What `pullable_image_ref` chooses.
use updater.Common.{
  ◌≡◌, refl, ◌≢◌, ◌↔◌, ◌⊎◌, inl, inr, true, false, not, ◌&&◌, List, [], ◌∷◌, arith, Bool-cases,
  Text, codes, ◌==◌, eq_iff, is_empty, is_empty_iff, trim_space, trim_space_idem,
}
use updater.Libraries.{Libraries}
use updater.Refs.{
  is_image_id_like_reference, is_digest_pinned_reference, is_mutable_pullable_ref,
  first_pullable_tag, pullable_image_ref,
}

module _ (lib : Libraries) where
  -- A text that can be pulled again and can then name another image: it is not empty, no image ID
  -- and not pinned to a digest.
  abbrev pub IsPullable : Text → Type 0
  IsPullable ref =
      (ref ≢ [])
      × (is_image_id_like_reference ref ≡ false)
      × (is_digest_pinned_reference lib ref ≡ false)

  mutable_iff :
      (ref : Text)
      → (is_mutable_pullable_ref lib (trim_space ref) ≡ true) ↔ IsPullable (trim_space ref)
  unfolding is_mutable_pullable_ref
  mutable_iff ref = rw (is_mutable_pullable_ref, trim_space_idem ref) (step (trim_space ref))
    where
      step :
          (t : Text)
          → ((not (is_empty t)
                && not (is_image_id_like_reference t)
                && not (is_digest_pinned_reference lib t))
              ≡ true)
            ↔ IsPullable t
      step t = ground (arith, is_empty_iff t)

  -- The first pullable tag that is not "<none>:<none>", trimmed; the empty text if there is none.
  abbrev pub IsFirstTag : List Text → Text → Type 0
  IsFirstTag [] r = r ≡ []
  IsFirstTag (tag ∷ tags) r =
      (IsPullable (trim_space tag)
        × (trim_space tag ≢ codes "<none>:<none>")
        × (r ≡ trim_space tag))
      ⊎ (((¬ IsPullable (trim_space tag)) ⊎ (trim_space tag ≡ codes "<none>:<none>"))
          × IsFirstTag tags r)

  first_pullable_tag_lem : (tags : List Text) → IsFirstTag tags (first_pullable_tag lib tags)
  unfolding first_pullable_tag
  first_pullable_tag_lem [] = refl
  first_pullable_tag_lem (tag ∷ tags) =
      let (to, from) = mutable_iff tag in
      let (same, same') = eq_iff (trim_space tag) (codes "<none>:<none>") in
      elim (Bool-cases (trim_space tag == codes "<none>:<none>")) [
        | inl e ↦ rw (e, first_pullable_tag) (inr (inr (same e), first_pullable_tag_lem tags))
        | inr e ↦ elim (Bool-cases (is_mutable_pullable_ref lib (trim_space tag))) [
          | inl p ↦
              rw (e, p, first_pullable_tag)
                (inl (to p, λ f. absurd (ground (arith, same' f)), refl))
          | inr n ↦
              rw (e, n, first_pullable_tag)
                (inr (inl (λ p. absurd (ground (arith, from p))), first_pullable_tag_lem tags))
        ]
      ]

  -- The image of the container's config is taken if it can be pulled; or else the image of its
  -- summary; or else the first tag that can be pulled; each trimmed. The result is empty exactly
  -- where none of them can be pulled.
  abbrev pub IsChoice : Text → Text → List Text → Text → Type 0
  IsChoice summary config tags r =
      (IsPullable (trim_space config) × (r ≡ trim_space config))
      ⊎ ((¬ IsPullable (trim_space config))
          × ((IsPullable (trim_space summary) × (r ≡ trim_space summary))
              ⊎ ((¬ IsPullable (trim_space summary)) × IsFirstTag tags r)))

  -- The reference to pull is the first of these that can be pulled, trimmed: the image of the
  -- container's config, the image of its summary, the tags other than "<none>:<none>" in order. It
  -- is empty where there is none. Never is it an image ID or pinned to a digest.
  pub pullable_image_ref-IsChoice :
      (summary config : Text) (tags : List Text)
      → IsChoice summary config tags (pullable_image_ref lib summary config tags)
  unfolding pullable_image_ref
  pullable_image_ref-IsChoice summary config tags =
      let (a, a') = mutable_iff config in
      let (b, b') = mutable_iff summary in
      elim (Bool-cases (is_mutable_pullable_ref lib (trim_space config))) [
        | inl p ↦ rw (p, pullable_image_ref) (inl (a p, refl))
        | inr n ↦ elim (Bool-cases (is_mutable_pullable_ref lib (trim_space summary))) [
          | inl q ↦
              rw (n, q, pullable_image_ref)
                (inr (λ p. absurd (ground (arith, a' p)), inl (b q, refl)))
          | inr m ↦
              rw (n, m, pullable_image_ref)
                (inr (
                  λ p. absurd (ground (arith, a' p)),
                  inr (λ p. absurd (ground (arith, b' p)), first_pullable_tag_lem tags),
                ))
        ]
      ]
