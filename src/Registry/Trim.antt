-- ===== src/Registry/Trim.antt =====
-- `strings.Trim(s, cutset)` at a cutset of one character.
use updater.Common.{
  ℕ, ◌≡◌, refl, true, false, ◌&&◌, [], ◌∷◌, ◌++◌, arith, num_eq, if◌then◌else◌, num_eq_iff, All,
  Text, is_empty, is_space, trim_left, trim_right, trim_left, trim_right, trim_space,
}

unfoldable pub trim_char_left : ℕ → Text → Text
trim_char_left sep [] = []
trim_char_left sep (c ∷ s) = if num_eq c sep then trim_char_left sep s else c ∷ s

unfoldable pub trim_char_right : ℕ → Text → Text
trim_char_right sep [] = []
trim_char_right sep (c ∷ s) =
    let rest = trim_char_right sep s in if is_empty rest && num_eq c sep then [] else c ∷ rest

unfoldable pub trim_char : ℕ → Text → Text
unfolding trim_char_left trim_char_right
trim_char sep s = trim_char_right sep (trim_char_left sep s)

-- The characters of a text other than one.
abbrev pub IsOther : ℕ → ℕ → Type 0
IsOther sep c = num_eq c sep ≡ false

trim_char_right-append :
    (sep : ℕ) (s : Text) → All (IsOther sep) s → trim_char_right sep (s ++ sep ∷ []) ≡ s
unfolding trim_char_right is_empty
trim_char_right-append sep [] h = ground (arith, num_eq_iff sep sep)
trim_char_right-append sep (c ∷ s) h = ground (arith, trim_char_right-append sep s h.1)

-- A text between two such characters, that holds none itself, is what `Trim` leaves.
pub trim_char-between :
    (sep : ℕ) (s : Text) → All (IsOther sep) s → trim_char sep (sep ∷ (s ++ sep ∷ [])) ≡ s
unfolding trim_char trim_char_left
trim_char-between sep [] h = ground (arith, num_eq_iff sep sep)
trim_char-between sep (c ∷ s) h =
    let same : num_eq sep sep ≡ true = ground arith in
    rw (same, h.0) (trim_char_right-append sep (c ∷ s) h)

pub trim_right-append :
    (s : Text) (d : ℕ) → is_space d ≡ false → trim_right (s ++ d ∷ []) ≡ s ++ d ∷ []
unfolding trim_right is_empty
trim_right-append [] d h = rw h refl
trim_right-append (c ∷ []) d h = rw h refl
trim_right-append (c ∷ e ∷ s) d h = rw (trim_right-append (e ∷ s) d h) refl

pub trim_space-between :
    (c : ℕ) (s : Text) (d : ℕ)
    → is_space c ≡ false
    → is_space d ≡ false
    → trim_space (c ∷ (s ++ d ∷ [])) ≡ c ∷ (s ++ d ∷ [])
unfolding trim_space trim_left
trim_space-between c s d hc hd = rw hc (trim_right-append (c ∷ s) d hd)

-- White space in front is cut.
pub trim_space-spaces :
    (gap s : Text) → All (λ c. is_space c ≡ true) gap → trim_space (gap ++ s) ≡ trim_space s
unfolding trim_space trim_left
trim_space-spaces [] s h = refl
trim_space-spaces (c ∷ gap) s h = rw h.0 (trim_space-spaces gap s h.1)
