-- ===== src/Status/Members.antt =====
-- A call adds its id to the list, or takes it out, and keeps the list ascending.
use updater.Common.{
  ◌≡◌, refl, sym, ◌∙◌, subst, ◌≢◌, ◌↔◌, ◌⊎◌, inl, inr, Bool, true, false, List, [], ◌∷◌, arith,
  if◌then◌else◌, Bool-cases, In, All, All-In, All-of_In, All-map, Text, ◌==◌, eq_iff, text_lt,
}
use updater.Status.{search_index, binary_search, next_snapshot, update_snapshot}
use updater.Status.Order.{text_lt_irrefl, text_lt_trans, text_lt_total, IsAscending}

update_below :
    (id : Text) (add : Bool) (x : Text) (xs : List Text)
    → text_lt x id ≡ true
    → update_snapshot id add (x ∷ xs) ≡ x ∷ update_snapshot id add xs
unfolding update_snapshot next_snapshot binary_search search_index
update_below id true x xs h = ground arith
update_below id false x xs h = ground arith

update_here :
    (id : Text) (add : Bool) (x : Text) (xs : List Text)
    → text_lt x id ≡ false
    → update_snapshot id add (x ∷ xs)
      ≡ (if add then (if x == id then x ∷ xs else id ∷ x ∷ xs) else if x == id then xs else x ∷ xs)
unfolding update_snapshot next_snapshot binary_search search_index
update_here id true x xs h = ground arith
update_here id false x xs h = ground arith

update_nil : (id : Text) (add : Bool) → update_snapshot id add [] ≡ (if add then id ∷ [] else [])
unfolding update_snapshot next_snapshot binary_search search_index
update_nil id true = refl
update_nil id false = refl

-- An ascending list that begins above `id` does not hold it.
In-above :
    (id x : Text) (xs : List Text)
    → text_lt x id ≡ false
    → x ≢ id
    → All (λ y. text_lt x y ≡ true) xs
    → ¬ In id (x ∷ xs)
In-above id x xs low ne up (inl e) = ne (sym e)
In-above id x xs low ne up (inr m) =
    absurd (ground (arith, All-In (λ y. text_lt x y ≡ true) id xs up m))

not-In_self : (x : Text) (xs : List Text) → All (λ y. text_lt x y ≡ true) xs → ¬ In x xs
not-In_self x xs up m =
    absurd (ground (arith, All-In (λ y. text_lt x y ≡ true) x xs up m, text_lt_irrefl x))

-- Adding makes `id` a member and removing makes it none; all others stay as they are.
abbrev pub Updated : Text → Bool → List Text → Text → Type 0
Updated id true ids y = (y ≡ id) ⊎ In y ids
Updated id false ids y = (y ≢ id) × In y ids

pub update_snapshot-In :
    (id : Text) (add : Bool) (ids : List Text) (y : Text)
    → IsAscending ids
    → In y (update_snapshot id add ids) ↔ Updated id add ids y
update_snapshot-In id true [] y a = rw (update_nil id true) ((λ m. m), (λ m. m))
update_snapshot-In id false [] y a = rw (update_nil id false) ((λ m. absurd m), (λ m. m.1))
update_snapshot-In id true (x ∷ xs) y (up, a) = elim (Bool-cases (text_lt x id)) [
  | inl below ↦
      rw (update_below id true x xs below) (ground (arith, update_snapshot-In id true xs y a))
  | inr here ↦ rw (update_here id true x xs here) (elim (Bool-cases (x == id)) [
    | inl same ↦ rw same (let e : x ≡ id = (eq_iff x id).0 same in ground arith)
    | inr other ↦ rw other ((λ m. m), (λ m. m))
  ])
]
update_snapshot-In id false (x ∷ xs) y (up, a) = elim (Bool-cases (text_lt x id)) [
  | inl below ↦
      let apart : x ≢ id = λ e. ground (arith, text_lt_irrefl id) in
      rw (update_below id false x xs below) (ground (arith, update_snapshot-In id false xs y a))
  | inr here ↦ rw (update_here id false x xs here) (elim (Bool-cases (x == id)) [
    | inl same ↦ rw same (
        let e : x ≡ id = (eq_iff x id).0 same in
        (
          λ m. ((λ f. not-In_self x xs up (subst (λ z. In z xs) (f ∙ sym e) m)), inr m),
          λ (ne, m). elim m [ inl f ↦ absurd (ne (f ∙ e)) | inr l ↦ l ],
        ))
    | inr other ↦ rw other (
        let ne : x ≢ id = λ e. absurd (ground (arith, eq_iff x id)) in
        (
          λ m. ((λ f. In-above id x xs here ne up (subst (λ z. In z (x ∷ xs)) f m)), m),
          λ (_, m). m,
        ))
  ])
]

pub update_snapshot-IsAscending :
    (id : Text) (add : Bool) (ids : List Text)
    → IsAscending ids
    → IsAscending (update_snapshot id add ids)
update_snapshot-IsAscending id true [] a = rw (update_nil id true) (tt, tt)
update_snapshot-IsAscending id false [] a = rw (update_nil id false) tt
update_snapshot-IsAscending id add (x ∷ xs) (up, a) = elim (Bool-cases (text_lt x id)) [
  | inl below ↦ rw (update_below id add x xs below) (
    All-of_In (λ y. text_lt x y ≡ true) (update_snapshot id add xs) (later below),
    update_snapshot-IsAscending id add xs a,
  )
  | inr here ↦ rw (update_here id add x xs here) (elim (Bool-cases (x == id)) [
    | inl same ↦ rw same (at_same add)
    | inr other ↦ rw other (at_other here (λ e. absurd (ground (arith, eq_iff x id))) add)
  ])
]
  where
    later : text_lt x id ≡ true → (y : Text) → In y (update_snapshot id add xs) → text_lt x y ≡ true
    later below y m = kept add below ((update_snapshot-In id add xs y a).0 m)
      where
        kept : (b : Bool) → text_lt x id ≡ true → Updated id b xs y → text_lt x y ≡ true
        kept true below (inl e) = rw e below
        kept true below (inr l) = All-In (λ z. text_lt x z ≡ true) y xs up l
        kept false below (_, l) = All-In (λ z. text_lt x z ≡ true) y xs up l

    at_same : (b : Bool) → IsAscending (if b then x ∷ xs else xs)
    at_same true = (up, a)
    at_same false = a

    at_other :
        text_lt x id ≡ false → x ≢ id → (b : Bool) → IsAscending (if b then id ∷ x ∷ xs else x ∷ xs)
    at_other here ne true =
        let less : text_lt id x ≡ true = text_lt_total x id here ne in
        (
          (
            less,
            All-map (λ y. text_lt x y ≡ true) (λ y. text_lt id y ≡ true) xs
                (λ y. text_lt_trans id x y less) up,
          ),
          (up, a),
        )
    at_other here ne false = (up, a)
