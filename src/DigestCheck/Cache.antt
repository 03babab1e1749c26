-- ===== src/DigestCheck/Cache.antt =====
-- The cache of image IDs.
use updater.Common.{
  ◌≡◌, refl, sym, ap, ◌∙◌, ◌⊎◌, inl, inr, true, false, none, some, List, [], ◌∷◌, Bool-cases,
  Option-cases, Text, ◌==◌, eq_iff, eq_refl, Map, lookup, insert, lookup-insert,
}
use updater.Libraries.{Libraries}
use updater.DigestCheck.{Checker, get_image_ids_for_ref, ids_or_none, ids_for_ref}
use updater.Ports.{History, ◌>>=◌}

abbrev Cache : Type 0
Cache = Map (List Text)

lookup-insert_same :
    (cache : Cache) (ref : Text) (ids : List Text) → lookup (insert cache ref ids) ref ≡ some ids
lookup-insert_same cache ref ids = rw (lookup-insert cache ref ref ids, eq_refl ref) refl

hit :
    (lib : Libraries) (c : Checker) (cache : Cache) (ref : Text) (h : History) {ids : List Text}
    → lookup cache ref ≡ some ids
    → ids_for_ref lib c cache ref h ≡ ((ids, cache), h)
unfolding ids_for_ref
hit lib c cache ref h e = rw (e, ids_for_ref) refl

miss :
    (lib : Libraries) (c : Checker) (cache : Cache) (ref : Text) (h : History)
    → lookup cache ref ≡ none
    → let found = get_image_ids_for_ref lib c ref h in
      ids_for_ref lib c cache ref h
      ≡ ((ids_or_none lib found.0, insert cache ref (ids_or_none lib found.0)), found.1)
unfolding ids_for_ref ◌>>=◌
miss lib c cache ref h e = rw (e, ids_for_ref) refl

cached :
    (lib : Libraries) (c : Checker) (cache : Cache) (ref : Text) (h : History)
    → let out = ids_for_ref lib c cache ref h in lookup out.0.1 ref ≡ some out.0.0
cached lib c cache ref h = elim (Option-cases (lookup cache ref)) [
  | inr (ids, e) ↦ rw (hit lib c cache ref h e) e
  | inl e ↦ rw (miss lib c cache ref h e) (lookup-insert_same cache ref _)
]

-- A lookup of another reference changes nothing that the cache has.
ids_for_ref-keeps :
    (lib : Libraries) (c : Checker) (cache : Cache) (ref other : Text) (h : History)
    {ids : List Text}
    → lookup cache ref ≡ some ids
    → lookup (ids_for_ref lib c cache other h).0.1 ref ≡ some ids
ids_for_ref-keeps lib c cache ref other h {ids} e = elim (Option-cases (lookup cache other)) [
  | inr (found, f) ↦ rw (hit lib c cache other h f) e
  | inl f ↦
      let ids' = ids_or_none lib (get_image_ids_for_ref lib c other h).0 in
      let differs : (other == ref) ≡ false = not_same (Bool-cases (other == ref)) f in
      let after : lookup (insert cache other ids') ref ≡ some ids =
        rw (lookup-insert cache other ref ids', differs) e in
      rw (miss lib c cache other h f) after
]
  where
    not_same :
        ((other == ref) ≡ true) ⊎ ((other == ref) ≡ false)
        → lookup cache other ≡ none
        → (other == ref) ≡ false
    not_same (inr d) f = d
    not_same (inl d) f =
        let no : some ids ≡ none = sym e ∙ sym (ap (lookup cache) ((eq_iff other ref).0 d)) ∙ f in
        absurd cc

-- The cache after further lookups, each made where other requests have been made before.
abbrev pub looked_up :
    Libraries → Checker → Map (List Text) → List (Text × History) → Map (List Text)
looked_up lib c cache [] = cache
looked_up lib c cache ((ref, h) ∷ more) = looked_up lib c (ids_for_ref lib c cache ref h).0.1 more

looked_up-keeps :
    (lib : Libraries) (c : Checker) (cache : Cache) (ref : Text) (others : List (Text × History))
    {ids : List Text}
    → lookup cache ref ≡ some ids
    → lookup (looked_up lib c cache others) ref ≡ some ids
looked_up-keeps lib c cache ref [] e = e
looked_up-keeps lib c cache ref ((other, h) ∷ others) e =
    looked_up-keeps lib c (ids_for_ref lib c cache other h).0.1 ref others
      (ids_for_ref-keeps lib c cache ref other h e)

-- A reference that is not in the cache is looked up, and the IDs found, or none after an error, are
-- the answer. After any number of further lookups through the same cache, at any time, the
-- reference is answered with the same IDs, without a request, and the cache stays as it is.
pub ids_for_ref_again :
    (lib : Libraries) (c : Checker) (cache : Map (List Text)) (ref : Text) (h : History)
    (others : List (Text × History)) (h' : History)
    → let out = ids_for_ref lib c cache ref h in
      let found = get_image_ids_for_ref lib c ref h in
      let later = looked_up lib c out.0.1 others in
      (lookup cache ref ≡ none → (out.0.0 ≡ ids_or_none lib found.0) × (out.1 ≡ found.1))
      × (ids_for_ref lib c later ref h' ≡ ((out.0.0, later), h'))
ids_for_ref_again lib c cache ref h others h' =
    let out = ids_for_ref lib c cache ref h in
    (
      λ e. (rw (miss lib c cache ref h e) refl, rw (miss lib c cache ref h e) refl),
      hit lib c (looked_up lib c out.0.1 others) ref h'
          (looked_up-keeps lib c out.0.1 ref others (cached lib c cache ref h)),
    )
