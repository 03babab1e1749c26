-- ===== src/Common/Strings.antt =====
-- Go's strings as lists of code points, with the functions of package strings that the program
-- calls. `to_lower`, `to_upper` and `equal_fold` know every code point whose image is an ASCII
-- character, and leave the letters beyond ASCII as they are: the program compares their results
-- with ASCII words only. `trim_space` cuts all of Unicode's white space.
use Prim.Native.Nat.{ℕ, ◌+◌, ◌-◌, ◌≤◌}
use Prim.Native.Char.{code}
use Prim.Native.String.{String}
use mathlib.Core.Path.{◌≡◌, refl, ap}
use mathlib.Core.Logic.{◌↔◌, inl, inr, ◌≢◌}
use mathlib.Core.Bool.{Bool, true, false, ◌&&◌, ◌||◌}
use mathlib.Core.Option.{Option, none, some}
use mathlib.Core.List.{List, [], ◌∷◌, ◌++◌, map, reverse}
use native.Mathlib.Omega.{arith}
use updater.Common.Tests.{ltb, leb, num_eq, if◌then◌else◌, Bool-cases}
use updater.Common.Lists.{length}

abbrev pub Text : Type 0
Text = List ℕ

unfoldable pub codes : String → Text
codes String.[] = []
codes (String.◌∷◌ c s) = code c ∷ codes s

infix 50 ◌==◌
unfoldable pub ◌==◌ : Text → Text → Bool
[] == [] = true
[] == (y ∷ ys) = false
(x ∷ xs) == [] = false
(x ∷ xs) == (y ∷ ys) = num_eq x y && xs == ys

pub eq_iff : (s t : Text) → ((s == t) ≡ true) ↔ (s ≡ t)
unfolding ◌==◌
eq_iff [] [] = ground arith
eq_iff [] (y ∷ ys) = ground arith
eq_iff (x ∷ xs) [] = ground arith
eq_iff (x ∷ xs) (y ∷ ys) = ground (arith, eq_iff xs ys)

pub eq_refl : (s : Text) → (s == s) ≡ true
eq_refl s = (eq_iff s s).1 refl

-- `s == ""`.
unfoldable pub is_empty : Text → Bool
is_empty [] = true
is_empty (c ∷ s) = false

pub is_empty_iff : (s : Text) → (is_empty s ≡ true) ↔ (s ≡ [])
unfolding is_empty
is_empty_iff [] = ground arith
is_empty_iff (c ∷ s) = ground arith

unfoldable pub is_space : ℕ → Bool
is_space c =
    leb 9 c && leb c 13
    || num_eq c 32
    || num_eq c 0x85
    || num_eq c 0xa0
    || num_eq c 0x1680
    || leb 0x2000 c && leb c 0x200a
    || num_eq c 0x2028
    || num_eq c 0x2029
    || num_eq c 0x202f
    || num_eq c 0x205f
    || num_eq c 0x3000

unfoldable pub trim_left : Text → Text
trim_left [] = []
trim_left (c ∷ s) = if is_space c then trim_left s else c ∷ s

unfoldable pub trim_right : Text → Text
trim_right [] = []
trim_right (c ∷ s) = let rest = trim_right s in if is_empty rest && is_space c then [] else c ∷ rest

unfoldable pub trim_space : Text → Text
unfolding trim_left trim_right is_space is_empty
trim_space s = trim_right (trim_left s)

unfoldable pub lower_char : ℕ → ℕ
lower_char c =
    if leb b'A' c && leb c b'Z'
    then c + 32
    else if num_eq c 0x130
    then b'i'
    else if num_eq c 0x212a
    then b'k'
    else c

unfoldable pub upper_char : ℕ → ℕ
upper_char c =
    if leb b'a' c && leb c b'z'
    then c - 32
    else if num_eq c 0x131
    then b'I'
    else if num_eq c 0x17f
    then b'S'
    else c

-- Simple case folding, by which `strings.EqualFold` compares.
unfoldable pub fold_char : ℕ → ℕ
fold_char c =
    if leb b'A' c && leb c b'Z'
    then c + 32
    else if num_eq c 0x17f
    then b's'
    else if num_eq c 0x212a
    then b'k'
    else c

unfoldable pub to_lower : Text → Text
unfolding lower_char
to_lower s = map lower_char s

unfoldable pub to_upper : Text → Text
unfolding upper_char
to_upper s = map upper_char s

unfoldable pub fold_case : Text → Text
unfolding fold_char
fold_case s = map fold_char s

unfoldable pub equal_fold : Text → Text → Bool
unfolding ◌==◌ fold_case
equal_fold s t = fold_case s == fold_case t

unfoldable pub has_prefix : Text → Text → Bool
has_prefix s [] = true
has_prefix [] (p ∷ ps) = false
has_prefix (c ∷ s) (p ∷ ps) = num_eq c p && has_prefix s ps

unfoldable pub trim_prefix_of : Text → Text → Option Text
trim_prefix_of s [] = some s
trim_prefix_of [] (p ∷ ps) = none
trim_prefix_of (c ∷ s) (p ∷ ps) = if num_eq c p then trim_prefix_of s ps else none

unfoldable pub trim_prefix : Text → Text → Text
unfolding trim_prefix_of
trim_prefix s p = elim (trim_prefix_of s p) [ none ↦ s | some rest ↦ rest ]

unfoldable pub trim_suffix : Text → Text → Text
unfolding trim_prefix
trim_suffix s p = reverse (trim_prefix (reverse s) (reverse p))

unfoldable pub contains : Text → Text → Bool
unfolding has_prefix
contains [] p = is_empty p
contains (c ∷ s) p = has_prefix (c ∷ s) p || contains s p

-- `strings.Cut(s, sep)` at a separator of one character.
unfoldable pub cut : Text → ℕ → Option (Text × Text)
cut [] sep = none
cut (c ∷ s) sep =
    if num_eq c sep
    then some ([], s)
    else elim (cut s sep) [ none ↦ none | some (before, after) ↦ some (c ∷ before, after) ]

-- What stands in front of the first separator: `strings.SplitN(s, sep, 2)[0]`.
unfoldable pub before_sep : Text → ℕ → Text
before_sep [] sep = []
before_sep (c ∷ s) sep = if num_eq c sep then [] else c ∷ before_sep s sep

unfoldable pub split_cons : ℕ → List Text → List Text
split_cons c [] = (c ∷ []) ∷ []
split_cons c (part ∷ parts) = (c ∷ part) ∷ parts

-- `strings.Split(s, sep)`.
unfoldable pub split : Text → ℕ → List Text
unfolding split_cons
split [] sep = [] ∷ []
split (c ∷ s) sep =
    let parts = split s sep in if num_eq c sep then [] ∷ parts else split_cons c parts

-- `strings.Join(parts, sep)`.
unfoldable pub join : List Text → Text → Text
join [] sep = []
join (part ∷ []) sep = part
join (part ∷ next ∷ parts) sep = part ++ (sep ++ join (next ∷ parts) sep)

-- The byte order of Go's strings, which is that of their code points.
unfoldable pub text_lt : Text → Text → Bool
text_lt s [] = false
text_lt [] (d ∷ t) = true
text_lt (c ∷ s) (d ∷ t) = ltb c d || (num_eq c d && text_lt s t)

trim_left-trim_left : (s : Text) → trim_left (trim_left s) ≡ trim_left s
unfolding trim_left
trim_left-trim_left [] = refl
trim_left-trim_left (c ∷ s) = ground (arith, trim_left-trim_left s)

trim_right-trim_right : (s : Text) → trim_right (trim_right s) ≡ trim_right s
unfolding trim_right is_empty
trim_right-trim_right [] = refl
trim_right-trim_right (c ∷ s) = ground (arith, trim_right-trim_right s)

trim_left-length : (s : Text) → length (trim_left s) ≤ length s
unfolding trim_left
trim_left-length [] = omega arith
trim_left-length (c ∷ s) = ground (arith, trim_left-length s)

trim_left-trim_right : (s : Text) → trim_left s ≡ s → trim_left (trim_right s) ≡ trim_right s
unfolding trim_left trim_right is_empty
trim_left-trim_right [] h = refl
trim_left-trim_right (c ∷ s) h = elim (Bool-cases (is_space c)) [
  | inl space ↦ absurd (longer c s (trim_left-length s) (rw space at h))
  | inr ink ↦ rw (ink, trim_right) (ground arith)
]
  where
    longer : (c : ℕ) (s : Text) → length (trim_left s) ≤ length s → trim_left s ≢ c ∷ s
    longer c s le e = omega (arith, ap length e)

-- Cutting white space a second time changes nothing.
pub trim_space_idem : (s : Text) → trim_space (trim_space s) ≡ trim_space s
unfolding trim_space
trim_space_idem s =
    rw (trim_left-trim_right (trim_left s) (trim_left-trim_left s))
      (trim_right-trim_right (trim_left s))

pub has_prefix_iff : (s p : Text) → (has_prefix s p ≡ true) ↔ ((rest : Text) × (s ≡ p ++ rest))
unfolding has_prefix
has_prefix_iff s [] = (λ _. (s, refl), λ _. refl)
has_prefix_iff [] (p ∷ ps) = (λ e. cc, λ (rest, e). cc)
has_prefix_iff (c ∷ s) (p ∷ ps) =
    let (to, from) = has_prefix_iff s ps in
    (
      λ e. let (rest, f) = to (ground arith) in (rest, ground arith),
      λ (rest, e). ground (arith, from (rest, ground arith)),
    )
