-- ===== src/Registry/RoundTrip.antt =====
-- The round trip of a challenge: what `parseWWWAuth` reads from a challenge that is printed.
use updater.Common.{
  ℕ, ◌≡◌, refl, false, some, List, [], ◌∷◌, ◌++◌, map, arith, if◌then◌else◌, drop, All, Text, codes,
  ◌==◌, eq_iff, is_space, trim_left, trim_right, trim_left, trim_right, trim_space, to_lower,
  has_prefix, cut,
}
use mathlib.Core.List.{append_assoc}
use updater.Registry.Trim.{trim_char, IsOther, trim_char-between, trim_space-between}
use updater.Registry.Challenge.{Challenge, note_param, read_param, read_params, parse_www_auth}
use updater.Registry.Printing.{
  Param, print_param, print_params, print_challenge, IsKeyChar, IsParam, IsGap, print_param-between,
  quote_is_ink, split_auth_params-print_params,
}

-- The value of the last parameter of this name, in any letter case.
abbrev pub last_value_from : Text → Text → List Param → Text
last_value_from value key [] = value
last_value_from value key (p ∷ ps) =
    last_value_from (if to_lower p.key == key then p.value else value) key ps

abbrev pub last_value : Text → List Param → Text
last_value = last_value_from []

cut-key : (key rest : Text) → All IsKeyChar key → cut (key ++ b'=' ∷ rest) b'=' ≡ some (key, rest)
unfolding cut
cut-key [] rest h = refl
cut-key (c ∷ key) rest h = rw (h.0.3, cut-key key rest h.1) refl

trim_right-key : (key : Text) → All IsKeyChar key → trim_right key ≡ key
unfolding trim_right
trim_right-key [] h = refl
trim_right-key (c ∷ key) h = rw (trim_right-key key h.1, h.0.0) (ground arith)

trim_space-key : (key : Text) → All IsKeyChar key → trim_space key ≡ key
unfolding trim_space trim_left
trim_space-key [] h = unfold trim_right in refl
trim_space-key (c ∷ key) h = rw h.0.0 (trim_right-key (c ∷ key) h)

trim-value :
    (value : Text)
    → All (IsOther b'"') value
    → trim_char b'"' (trim_space (b'"' ∷ (value ++ b'"' ∷ []))) ≡ value
trim-value value h =
    rw (trim_space-between b'"' value b'"' quote_is_ink quote_is_ink)
      (trim_char-between b'"' value h)

read_param-print_param :
    (found : Challenge) (p : Param)
    → IsParam p
    → read_param found (print_param p) ≡ note_param found (to_lower p.key) p.value
unfolding read_param
read_param-print_param found p h =
    rw
      (
        read_param,
        cut-key p.key (b'"' ∷ (p.value ++ b'"' ∷ [])) h.key_chars,
        trim_space-key p.key h.key_chars,
        trim-value p.value h.value_chars,
      )
      refl

note_param_lem :
    (realm service key value : Text)
    → note_param (realm, service) key value ≡ (
      if key == codes "realm" then value else realm,
      if key == codes "service" then value else service,
    )
unfolding note_param codes
note_param_lem realm service key value =
    ground (arith, eq_iff key (codes "realm"), eq_iff key (codes "service"))

read_params-print_params :
    (ps : List Param) (realm service : Text)
    → All IsParam ps
    → read_params (realm, service) (map print_param ps)
      ≡ (last_value_from realm (codes "realm") ps, last_value_from service (codes "service") ps)
unfolding read_params
read_params-print_params [] realm service h = refl
read_params-print_params (p ∷ ps) realm service h =
    rw
      (
        read_params,
        read_param-print_param (realm, service) p h.0,
        note_param_lem realm service (to_lower p.key) p.value,
      )
      (read_params-print_params ps _ _ h.1)

-- Printed parameters begin with a character of a key and end with a quote.
print_params-between :
    (p : Param) (ps : List Param) (gap : Text)
    → All IsParam (p ∷ ps)
    → (c : ℕ) × (s : Text) × (is_space c ≡ false)
      × (print_params gap (p ∷ ps) ≡ c ∷ (s ++ b'"' ∷ []))
print_params-between p [] gap h = print_param-between p h.0
print_params-between p (q ∷ ps) gap h =
    let (c, s, ink, e) = print_param-between p h.0 in
    let (d, t, _, f) = print_params-between q ps gap h.1 in
    (c, s ++ b'"' ∷ b',' ∷ (gap ++ d ∷ t), ink, rw (e, f) (simp append_assoc refl))

trim_space-print_params :
    (p : Param) (ps : List Param) (gap : Text)
    → All IsParam (p ∷ ps)
    → trim_space (print_params gap (p ∷ ps)) ≡ print_params gap (p ∷ ps)
trim_space-print_params p ps gap h =
    let (c, s, ink, e) = print_params-between p ps gap h in
    rw e (trim_space-between c s b'"' ink quote_is_ink)

trim_space-print_challenge :
    (p : Param) (ps : List Param) (gap : Text)
    → All IsParam (p ∷ ps)
    → trim_space (print_challenge gap (p ∷ ps)) ≡ print_challenge gap (p ∷ ps)
unfolding codes
trim_space-print_challenge p ps gap h =
    let (c, s, ink, e) = print_params-between p ps gap h in
    let b_is_ink : is_space b'B' ≡ false = unfold is_space in refl in
    rw e (
      trim_space-between b'B' (b'e' ∷ b'a' ∷ b'r' ∷ b'e' ∷ b'r' ∷ b' ' ∷ c ∷ s) b'"' b_is_ink
        quote_is_ink)

-- A printed challenge, with one parameter at least, is read back: the realm and the service are
-- the values of the last parameters of these names, in any letter case, and empty where there is
-- none. Keys hold no white space, quote, comma or equals sign, values no quote; commas in values
-- and white space behind the separators make no difference.
pub parse_www_auth-print_challenge :
    (p : Param) (ps : List Param) (gap : Text)
    → IsGap gap
    → All IsParam (p ∷ ps)
    → parse_www_auth (print_challenge gap (p ∷ ps))
      ≡ (last_value (codes "realm") (p ∷ ps), last_value (codes "service") (p ∷ ps))
unfolding parse_www_auth codes has_prefix to_lower
parse_www_auth-print_challenge p ps gap g h =
    rw
      (
        parse_www_auth,
        trim_space-print_challenge p ps gap h,
        drop,
        trim_space-print_params p ps gap h,
        split_auth_params-print_params p ps gap g h,
      )
      (read_params-print_params (p ∷ ps) [] [] h)
