-- ===== src/Status/Order.antt =====
-- The order of texts is a strict total order.
use updater.Common.{
  ◌≡◌, refl, ◌≢◌, inl, inr, true, false, List, [], ◌∷◌, arith, num_eq, Bool-cases, All, Text,
  text_lt,
}

pub text_lt_irrefl : (s : Text) → text_lt s s ≡ false
unfolding text_lt
text_lt_irrefl [] = refl
text_lt_irrefl (c ∷ s) = ground (arith, text_lt_irrefl s)

pub text_lt_trans : (s t u : Text) → text_lt s t ≡ true → text_lt t u ≡ true → text_lt s u ≡ true
unfolding text_lt
text_lt_trans s t [] h k = ground arith
text_lt_trans s [] (e ∷ u) h k = ground arith
text_lt_trans [] (d ∷ t) (e ∷ u) h k = refl
text_lt_trans (c ∷ s) (d ∷ t) (e ∷ u) h k = ground (arith, text_lt_trans s t u)

pub text_lt_total : (s t : Text) → text_lt s t ≡ false → s ≢ t → text_lt t s ≡ true
unfolding text_lt
text_lt_total [] [] h ne = absurd (ne refl)
text_lt_total [] (d ∷ t) h ne = ground arith
text_lt_total (c ∷ s) [] h ne = refl
text_lt_total (c ∷ s) (d ∷ t) h ne = elim (Bool-cases (num_eq c d)) [
  | inl e ↦ ground (arith, text_lt_total s t (ground arith) (λ f. ne (ground arith)))
  | inr e ↦ ground arith
]

-- Each element is below all that stand behind it.
abbrev pub IsAscending : List Text → Type 0
IsAscending [] = Unit
IsAscending (x ∷ xs) = All (λ y. text_lt x y ≡ true) xs × IsAscending xs
