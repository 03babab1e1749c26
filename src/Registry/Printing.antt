-- ===== src/Registry/Printing.antt =====
-- Printed parameters of a challenge, and how `splitAuthParams` splits them.
use updater.Common.{
  ℕ, ◌≡◌, refl, sym, ap, ◌∙◌, ◌≢◌, Bool, true, false, List, [], ◌∷◌, ◌++◌, map, arith, All, All-map,
  Text, codes, is_empty, is_space, trim_space,
}
use mathlib.Core.List.{append_assoc, append-nil}
use updater.Registry.Trim.{IsOther, trim_space-between, trim_space-spaces}
use updater.Registry.Challenge.{Splitter, split_step, split_loop, split_end, split_auth_params}

pub record Param : Type 0 where
  pub key : Text
  pub value : Text

abbrev pub print_param : Param → Text
print_param p = p.key ++ (b'=' ∷ b'"' ∷ (p.value ++ b'"' ∷ []))

-- Parameters separated by a comma and white space.
abbrev pub print_params : Text → List Param → Text
print_params gap [] = []
print_params gap (p ∷ []) = print_param p
print_params gap (p ∷ q ∷ ps) = print_param p ++ (b',' ∷ (gap ++ print_params gap (q ∷ ps)))

abbrev pub print_challenge : Text → List Param → Text
print_challenge gap ps = codes "Bearer " ++ print_params gap ps

-- A character of a key: no white space, quote, comma or equals sign.
abbrev pub IsKeyChar : ℕ → Type 0
IsKeyChar c = (is_space c ≡ false) × IsOther b'"' c × IsOther b',' c × IsOther b'=' c

-- A key is not empty, and a value holds no quote.
pub record IsParam (p : Param) : Type 0 where
  pub key_ne : p.key ≢ []
  pub key_chars : All IsKeyChar p.key
  pub value_chars : All (IsOther b'"') p.value

abbrev pub IsGap : Text → Type 0
IsGap gap = All (λ c. is_space c ≡ true) gap

abbrev at : List Text → Text → Bool → Splitter
at parts current q = record { parts = parts; current = current; in_quote = q }

abbrev IsPlain : ℕ → Type 0
IsPlain c = IsOther b'"' c × IsOther b',' c

split_step-plain :
    (c : ℕ) (parts : List Text) (current : Text) (q : Bool)
    → IsPlain c
    → split_step (at parts current q) c ≡ at parts (current ++ c ∷ []) q
unfolding split_step
split_step-plain c parts current q h = ground arith

split_step-quoted :
    (c : ℕ) (parts : List Text) (current : Text)
    → IsOther b'"' c
    → split_step (at parts current true) c ≡ at parts (current ++ c ∷ []) true
unfolding split_step
split_step-quoted c parts current h = ground arith

split_loop-plain :
    (s : Text) (parts : List Text) (current : Text) (q : Bool) (rest : Text)
    → All IsPlain s
    → split_loop (at parts current q) (s ++ rest) ≡ split_loop (at parts (current ++ s) q) rest
unfolding split_loop
split_loop-plain [] parts current q rest h = rw append-nil refl
split_loop-plain (c ∷ s) parts current q rest h =
    rw (split_loop, split_step-plain c parts current q h.0)
      (split_loop-plain s parts (current ++ c ∷ []) q rest h.1 ∙ rw append_assoc refl)

split_loop-quoted :
    (s : Text) (parts : List Text) (current : Text) (rest : Text)
    → All (IsOther b'"') s
    → split_loop (at parts current true) (s ++ rest)
      ≡ split_loop (at parts (current ++ s) true) rest
unfolding split_loop
split_loop-quoted [] parts current rest h = rw append-nil refl
split_loop-quoted (c ∷ s) parts current rest h =
    rw (split_loop, split_step-quoted c parts current h.0)
      (split_loop-quoted s parts (current ++ c ∷ []) rest h.1 ∙ rw append_assoc refl)

IsKeyChar-IsPlain : (s : Text) → All IsKeyChar s → All IsPlain s
IsKeyChar-IsPlain s h = All-map IsKeyChar IsPlain s (λ c k. (k.1, k.2)) h

split_loop-opened :
    (parts : List Text) (current rest : Text)
    → split_loop (at parts current false) (b'=' ∷ b'"' ∷ rest)
      ≡ split_loop (at parts (current ++ (b'=' ∷ b'"' ∷ [])) true) rest
unfolding split_loop split_step
split_loop-opened parts current rest = rw append_assoc refl

split_loop-closed :
    (parts : List Text) (current rest : Text)
    → split_loop (at parts current true) (b'"' ∷ rest)
      ≡ split_loop (at parts (current ++ b'"' ∷ []) false) rest
unfolding split_loop split_step
split_loop-closed parts current rest = refl

print_param-append :
    (p : Param) (rest : Text)
    → print_param p ++ rest ≡ p.key ++ (b'=' ∷ b'"' ∷ (p.value ++ b'"' ∷ rest))
print_param-append p rest = simp append_assoc refl

split_loop-print_param :
    (p : Param) (parts : List Text) (current rest : Text)
    → IsParam p
    → split_loop (at parts current false) (print_param p ++ rest)
      ≡ split_loop (at parts (current ++ print_param p) false) rest
split_loop-print_param p parts current rest h =
    ap (split_loop (at parts current false)) (print_param-append p rest)
    ∙ split_loop-plain p.key parts current false _ (IsKeyChar-IsPlain p.key h.key_chars)
    ∙ split_loop-opened parts (current ++ p.key) _
    ∙ split_loop-quoted p.value parts _ (b'"' ∷ rest) h.value_chars
    ∙ split_loop-closed parts _ rest
    ∙ simp append_assoc refl

-- A printed parameter begins with its key and ends with a quote.
pub print_param-between :
    (p : Param)
    → IsParam p
    → (c : ℕ) × (s : Text) × (is_space c ≡ false) × (print_param p ≡ c ∷ (s ++ b'"' ∷ []))
print_param-between p h = begins p.key h.key_chars h.key_ne
  where
    begins :
        (key : Text)
        → All IsKeyChar key
        → key ≢ []
        → (c : ℕ) × (s : Text) × (is_space c ≡ false)
          × (key ++ (b'=' ∷ b'"' ∷ (p.value ++ b'"' ∷ [])) ≡ c ∷ (s ++ b'"' ∷ []))
    begins [] k ne = absurd (ne refl)
    begins (c ∷ key) k ne = (c, key ++ (b'=' ∷ b'"' ∷ p.value), k.0.0, simp append_assoc refl)

pub quote_is_ink : is_space b'"' ≡ false
unfolding is_space
quote_is_ink = refl

trim_space-print_param : (p : Param) → IsParam p → trim_space (print_param p) ≡ print_param p
trim_space-print_param p h =
    let (c, s, ink, e) = print_param-between p h in
    rw e (trim_space-between c s b'"' ink quote_is_ink)

-- What is cut off at a comma or at the end.
trim_space-gap :
    (gap : Text) (p : Param)
    → IsGap gap
    → IsParam p
    → trim_space (gap ++ print_param p) ≡ print_param p
trim_space-gap gap p g h = trim_space-spaces gap (print_param p) g ∙ trim_space-print_param p h

split_end-print_param :
    (parts : List Text) (gap : Text) (p : Param)
    → IsGap gap
    → IsParam p
    → split_end (at parts (gap ++ print_param p) false) ≡ parts ++ print_param p ∷ []
unfolding split_end
split_end-print_param parts gap p g h = rw (not_empty gap, trim_space-gap gap p g h) refl
  where
    not_empty : (gap : Text) → is_empty (gap ++ print_param p) ≡ false
    not_empty [] = let (c, s, ink, e) = print_param-between p h in rw e (unfold is_empty in refl)
    not_empty (c ∷ gap) = unfold is_empty in refl

split_step-comma :
    (parts : List Text) (gap : Text) (p : Param)
    → IsGap gap
    → IsParam p
    → split_step (at parts (gap ++ print_param p) false) b','
      ≡ at (parts ++ print_param p ∷ []) [] false
unfolding split_step
split_step-comma parts gap p g h = rw (trim_space-gap gap p g h) refl

IsGap-IsPlain : (gap : Text) → IsGap gap → All IsPlain gap
IsGap-IsPlain gap h = All-map (λ c. is_space c ≡ true) IsPlain gap (λ c k. plain c k) h
  where
    plain : (c : ℕ) → is_space c ≡ true → IsPlain c
    plain c k = unfold is_space in ground arith

split_loop-comma :
    (parts : List Text) (lead rest : Text) (p : Param)
    → IsGap lead
    → IsParam p
    → split_loop (at parts (lead ++ print_param p) false) (b',' ∷ rest)
      ≡ split_loop (at (parts ++ print_param p ∷ []) [] false) rest
unfolding split_loop
split_loop-comma parts lead rest p l h =
    ap (λ st. split_loop st rest) (split_step-comma parts lead p l h)

split_loop-separated :
    (p : Param) (gap lead rest : Text) (parts : List Text)
    → IsGap gap
    → IsGap lead
    → IsParam p
    → split_loop (at parts lead false) (print_param p ++ (b',' ∷ (gap ++ rest)))
      ≡ split_loop (at (parts ++ print_param p ∷ []) gap false) rest
split_loop-separated p gap lead rest parts g l h =
    split_loop-print_param p parts lead (b',' ∷ (gap ++ rest)) h
    ∙ split_loop-comma parts lead (gap ++ rest) p l h
    ∙ split_loop-plain gap (parts ++ print_param p ∷ []) [] false rest (IsGap-IsPlain gap g)

-- The parts are the printed parameters, whatever commas the values hold.
split_end-print_params :
    (p : Param) (ps : List Param) (gap lead : Text) (parts : List Text)
    → IsGap gap
    → IsGap lead
    → All IsParam (p ∷ ps)
    → split_end (split_loop (at parts lead false) (print_params gap (p ∷ ps)))
      ≡ parts ++ map print_param (p ∷ ps)
unfolding split_loop
split_end-print_params p [] gap lead parts g l h =
    ap (λ s. split_end (split_loop (at parts lead false) s)) (sym (append-nil (print_param p)))
    ∙ ap split_end (split_loop-print_param p parts lead [] h.0)
    ∙ split_end-print_param parts lead p l h.0
split_end-print_params p (q ∷ ps) gap lead parts g l h =
    ap split_end (split_loop-separated p gap lead (print_params gap (q ∷ ps)) parts g l h.0)
    ∙ split_end-print_params q ps gap gap (parts ++ print_param p ∷ []) g g h.1
    ∙ append_assoc parts (print_param p ∷ []) (map print_param (q ∷ ps))

pub split_auth_params-print_params :
    (p : Param) (ps : List Param) (gap : Text)
    → IsGap gap
    → All IsParam (p ∷ ps)
    → split_auth_params (print_params gap (p ∷ ps)) ≡ map print_param (p ∷ ps)
unfolding split_auth_params
split_auth_params-print_params p ps gap g h = split_end-print_params p ps gap [] [] g tt h
