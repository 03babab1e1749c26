-- ===== src/Registry/Challenge.antt =====
-- The challenge of a registry that wants a token: `parseWWWAuth` and `splitAuthParams`.
use updater.Common.{
  ℕ, Bool, false, not, ◌&&◌, none, some, List, [], ◌∷◌, ◌++◌, num_eq, if◌then◌else◌, drop, Text,
  codes, ◌==◌, is_empty, trim_space, to_lower, has_prefix, cut,
}
use updater.Registry.Trim.{trim_char}

-- The variables of `splitAuthParams`.
pub record Splitter : Type 0 where
  pub parts : List Text
  pub current : Text
  pub in_quote : Bool

unfoldable pub split_step : Splitter → ℕ → Splitter
split_step st r =
    if num_eq r b'"'
    then record st { in_quote = not st.in_quote; current = st.current ++ r ∷ [] }
    else if num_eq r b',' && not st.in_quote
    then record st { parts = st.parts ++ trim_space st.current ∷ []; current = [] }
    else record st { current = st.current ++ r ∷ [] }

unfoldable pub split_loop : Splitter → Text → Splitter
unfolding split_step
split_loop st [] = st
split_loop st (r ∷ params) = split_loop (split_step st r) params

unfoldable pub split_end : Splitter → List Text
split_end st = if is_empty st.current then st.parts else st.parts ++ trim_space st.current ∷ []

abbrev pub split_start : Splitter
split_start = record { parts = []; current = []; in_quote = false }

unfoldable pub split_auth_params : Text → List Text
unfolding split_loop split_end
split_auth_params params = split_end (split_loop split_start params)

-- `realm, service`.
abbrev pub Challenge : Type 0
Challenge = Text × Text

-- The switch on the key of one parameter.
unfoldable pub note_param : Challenge → (key value : Text) → Challenge
note_param (realm, service) key value =
    if key == codes "realm"
    then (value, service)
    else if key == codes "service"
    then (realm, value)
    else (realm, service)

unfoldable pub read_param : Challenge → Text → Challenge
unfolding note_param trim_char
read_param found part = elim (cut part b'=') [
  | none ↦ found
  | some (key, value) ↦
      note_param found (to_lower (trim_space key)) (trim_char b'"' (trim_space value))
]

unfoldable pub read_params : Challenge → List Text → Challenge
unfolding read_param
read_params found [] = found
read_params found (part ∷ parts) = read_params (read_param found part) parts

unfoldable pub parse_www_auth : Text → Challenge
unfolding split_auth_params read_params
parse_www_auth challenge =
    let trimmed = trim_space challenge in
    if not (has_prefix (to_lower trimmed) (codes "bearer "))
    then ([], [])
    else read_params ([], []) (split_auth_params (trim_space (drop 7 trimmed)))
