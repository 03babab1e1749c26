-- ===== src/ComposeUpdater/Bytes.antt =====
-- The size of the output in an error, in bytes.
use updater.Common.{
  ℕ, zero, suc, ◌+◌, ◌-◌, ◌≤◌, ◌≡◌, refl, sym, inl, inr, List, [], ◌∷◌, ◌++◌, map, arith, leb,
  if◌then◌else◌, leb→le, Bool-cases, length, take, length-append, Text, codes, trim_space,
}
use mathlib.Core.List.{append_assoc}
use updater.ComposeUpdater.Output.{
  utf8, bytes, raw_byte, take_bytes, truncate_at, truncate_compose_output, max_compose_error_output,
}

bytes-append : (s t : Text) → bytes (s ++ t) ≡ bytes s ++ bytes t
unfolding bytes
bytes-append [] t = refl
bytes-append (c ∷ s) t = rw (bytes-append s t) (sym (append_assoc (utf8 c) (bytes s) (bytes t)))

utf8-raw_byte : (b : ℕ) → utf8 (raw_byte b) ≡ b ∷ []
unfolding utf8
utf8-raw_byte b = ground arith

bytes_raw : (bs : List ℕ) → bytes (map raw_byte bs) ≡ bs
unfolding bytes
bytes_raw [] = refl
bytes_raw (b ∷ bs) = rw (utf8-raw_byte b, bytes_raw bs) refl

take-append_long :
    (n : ℕ) (xs ys : List ℕ) → length xs ≤ n → take n (xs ++ ys) ≡ xs ++ take (n - length xs) ys
take-append_long n [] ys h = let e : n - 0 ≡ n = omega arith in rw e refl
take-append_long zero (x ∷ xs) ys h = absurd (omega arith)
take-append_long (suc n) (x ∷ xs) ys h =
    let e : suc n - suc (length xs) ≡ n - length xs = omega arith in
    rw (take-append_long n xs ys (omega arith), e) refl

take-append_short : (n : ℕ) (xs ys : List ℕ) → n ≤ length xs → take n (xs ++ ys) ≡ take n xs
take-append_short zero xs ys h = refl
take-append_short (suc n) [] ys h = absurd (omega arith)
take-append_short (suc n) (x ∷ xs) ys h = rw (take-append_short n xs ys (omega arith)) refl

length-take : (n : ℕ) (xs : List ℕ) → length (take n xs) ≤ n
length-take zero xs = omega arith
length-take (suc n) [] = omega arith
length-take (suc n) (x ∷ xs) = omega (arith, length-take n xs)

take-nil : (n : ℕ) → take {A = ℕ} n [] ≡ []
take-nil zero = refl
take-nil (suc n) = refl

-- Cutting a text in bytes cuts its bytes.
bytes-take_bytes : (n : ℕ) (s : Text) → bytes (take_bytes n s) ≡ take n (bytes s)
unfolding bytes take_bytes
bytes-take_bytes n [] = sym (take-nil n)
bytes-take_bytes n (c ∷ s) = elim (Bool-cases (leb (length (utf8 c)) n)) [
  | inl e ↦
      rw (take_bytes, e, bytes-take_bytes (n - length (utf8 c)) s)
        (sym (take-append_long n (utf8 c) (bytes s) (ground arith)))
  | inr e ↦
      rw (take_bytes, e, bytes_raw (take n (utf8 c)))
        (sym (take-append_short n (utf8 c) (bytes s) (ground arith)))
]

length_suffix : length (bytes (codes " (truncated)")) ≡ 12
unfolding bytes utf8 codes
length_suffix = refl

truncate_at-bytes :
    (limit : ℕ) (output : Text)
    → (bytes (truncate_at limit output) ≡ (
        if leb (length (bytes (trim_space output))) limit
        then bytes (trim_space output)
        else take limit (bytes (trim_space output)) ++ bytes (codes " (truncated)")))
      × (length (bytes (truncate_at limit output)) ≤ limit + 12)
unfolding truncate_at
truncate_at-bytes limit output =
    elim (Bool-cases (leb (length (bytes (trim_space output))) limit)) [
      | inl e ↦ rw (e, truncate_at) (refl, omega (arith, leb→le _ _ e))
      | inr e ↦
          let cut_is : bytes (take_bytes limit (trim_space output) ++ codes " (truncated)")
              ≡ take limit (bytes (trim_space output)) ++ bytes (codes " (truncated)") =
            rw
              (
                bytes-append (take_bytes limit (trim_space output)) (codes " (truncated)"),
                bytes-take_bytes limit (trim_space output),
              )
              refl in
          rw (truncate_at, e)
            (
              cut_is,
              rw cut_is (
                  rw
                    (length-append (take limit (bytes (trim_space output)))
                      (bytes (codes " (truncated)")))
                    (omega (arith, length_suffix, length-take limit (bytes (trim_space output))))),
            )
    ]

-- The output in an error has at most 4096 + 12 bytes: all bytes of the trimmed output where
-- these are at most 4096, and otherwise its first 4096, whether or not they end inside a
-- character, and the mark " (truncated)".
pub truncate_compose_output-bytes :
    (output : Text)
    → (bytes (truncate_compose_output output) ≡ (
        if leb (length (bytes (trim_space output))) max_compose_error_output
        then bytes (trim_space output)
        else take max_compose_error_output (bytes (trim_space output))
          ++ bytes (codes " (truncated)")))
      × (length (bytes (truncate_compose_output output)) ≤ max_compose_error_output + 12)
unfolding truncate_compose_output
truncate_compose_output-bytes output = truncate_at-bytes max_compose_error_output output
