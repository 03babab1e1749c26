-- ===== src/Common/Maps.antt =====
-- Go's maps as association lists, in the order in which `range` meets the entries, and sets as
-- lists of keys.
use mathlib.Core.Path.{◌≡◌, refl, sym}
use mathlib.Core.Bool.{Bool, true, false, ◌||◌}
use mathlib.Core.Logic.{◌↔◌, ◌⊎◌, inl, inr}
use mathlib.Core.Option.{Option, none, some}
use mathlib.Core.List.{List, [], ◌∷◌}
use native.Mathlib.Omega.{arith}
use updater.Common.Lists.{In, Distinct}
use updater.Common.Tests.{if◌then◌else◌, Bool-cases}
use updater.Common.Strings.{
  Text, codes, ◌==◌, eq_iff, is_empty, is_space, trim_left, trim_right, trim_space, lower_char,
  upper_char, fold_char, to_lower, to_upper, fold_case, equal_fold, has_prefix, trim_prefix_of,
  trim_prefix, trim_suffix, contains, cut, before_sep, split_cons, split, join, text_lt,
}

abbrev pub Map : Type 0 → Type 0
Map V = List (Text × V)

module _ {V : Type 0} where
  unfoldable pub lookup : Map V → Text → Option V
  unfolding ◌==◌
  lookup [] k = none
  lookup ((j, v) ∷ m) k = if j == k then some v else lookup m k

  unfoldable pub insert : Map V → Text → V → Map V
  unfolding ◌==◌
  insert [] k v = (k, v) ∷ []
  insert ((j, w) ∷ m) k v = if j == k then (k, v) ∷ m else (j, w) ∷ insert m k v

  unfoldable pub delete : Map V → Text → Map V
  unfolding ◌==◌
  delete [] k = []
  delete ((j, w) ∷ m) k = if j == k then delete m k else (j, w) ∷ delete m k

module _ {V : Type 0} where
  pub lookup-insert :
      (m : Map V) (k j : Text) (v : V)
      → lookup (insert m k v) j ≡ (if k == j then some v else lookup m j)
  unfolding lookup insert
  lookup-insert [] k j v = refl
  lookup-insert ((i, w) ∷ m) k j v =
      ground (arith, eq_iff k j, eq_iff i k, eq_iff i j, lookup-insert m k j v)

  pub lookup-delete :
      (m : Map V) (k j : Text) → lookup (delete m k) j ≡ (if k == j then none else lookup m j)
  unfolding lookup delete
  lookup-delete [] k j = ground arith
  lookup-delete ((i, w) ∷ m) k j =
      ground (arith, eq_iff k j, eq_iff i k, eq_iff i j, lookup-delete m k j)

unfoldable pub elem : Text → List Text → Bool
unfolding ◌==◌
elem a [] = false
elem a (x ∷ xs) = x == a || elem a xs

pub elem_iff : (a : Text) (xs : List Text) → (elem a xs ≡ true) ↔ In a xs
unfolding elem
elem_iff a [] = ground arith
elem_iff a (x ∷ xs) = ground (arith, eq_iff x a, elem_iff a xs)

pub not-In_of_elem : (a : Text) (xs : List Text) → elem a xs ≡ false → ¬ In a xs
not-In_of_elem a xs h m = let e : elem a xs ≡ true = (elem_iff a xs).1 m in ground arith

-- `slices.Sort`, in ascending order.
unfoldable pub insert_text : Text → List Text → List Text
insert_text k [] = k ∷ []
insert_text k (x ∷ xs) = if text_lt x k then x ∷ insert_text k xs else k ∷ x ∷ xs

unfoldable pub sort_texts : List Text → List Text
unfolding insert_text
sort_texts [] = []
sort_texts (k ∷ ks) = insert_text k (sort_texts ks)

insert_text-In : (k a : Text) (ks : List Text) → In a (insert_text k ks) ↔ ((a ≡ k) ⊎ In a ks)
unfolding insert_text
insert_text-In k a [] = ground arith
insert_text-In k a (x ∷ xs) = ground (arith, insert_text-In k a xs)

pub sort_texts-In : (a : Text) (ks : List Text) → In a (sort_texts ks) ↔ In a ks
unfolding sort_texts
sort_texts-In a [] = ground arith
sort_texts-In a (k ∷ ks) = ground (arith, insert_text-In k a (sort_texts ks), sort_texts-In a ks)

insert_text-Distinct :
    (k : Text) (ks : List Text) → (¬ In k ks) → Distinct ks → Distinct (insert_text k ks)
unfolding insert_text
insert_text-Distinct k [] n d = (n, d)
insert_text-Distinct k (x ∷ xs) n d = elim (Bool-cases (text_lt x k)) [
  | inr before ↦ rw (before, insert_text) (n, d)
  | inl after ↦
      rw (after, insert_text)
        (
          λ i. elim ((insert_text-In k x xs).0 i) [ inl e ↦ n (inl (sym e)) | inr l ↦ d.0 l ],
          insert_text-Distinct k xs (λ i. n (inr i)) d.1,
        )
]

pub sort_texts-Distinct : (ks : List Text) → Distinct ks → Distinct (sort_texts ks)
unfolding sort_texts
sort_texts-Distinct [] d = d
sort_texts-Distinct (k ∷ ks) d =
    insert_text-Distinct k (sort_texts ks) (λ i. d.0 ((sort_texts-In k ks).0 i))
      (sort_texts-Distinct ks d.1)

-- All functions on texts and maps, for tests by evaluation.
unfoldable pub text_functions : Unit {0}
unfolding codes ◌==◌ is_empty is_space trim_left trim_right trim_space lower_char upper_char
    fold_char to_lower to_upper fold_case equal_fold has_prefix trim_prefix_of trim_prefix
    trim_suffix contains cut before_sep split_cons split join text_lt lookup insert delete elem
    sort_texts
text_functions = tt
