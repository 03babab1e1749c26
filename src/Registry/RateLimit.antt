-- ===== src/Registry/RateLimit.antt =====
-- The pull quota that a registry's headers give.
use updater.Common.{
  ℕ, Bool, true, false, not, Option, none, some, List, [], ◌∷◌, if◌then◌else◌, Result, ok, err,
  Text, codes, ◌==◌, is_empty, trim_space, to_lower, cut, split,
}
use updater.Common.Int.{ℤ, atoi}

pub record RateLimitInfo : Type 0 where
  pub limit : Option ℤ
  pub remaining : Option ℤ
  pub used : Option ℤ
  pub window_seconds : Option ℤ
  pub source : Text

abbrev pub rate_limit_source : Text
rate_limit_source = codes "ratelimit"

-- What one part after the count makes of the window.
unfoldable pub window_of_part : Option ℤ → Text → Option ℤ
window_of_part window part = elim (cut (trim_space part) b'=') [
  | none ↦ window
  | some (key, raw_value) ↦
      if not (to_lower key == codes "w")
      then window
      else elim (atoi (trim_space raw_value)) [ none ↦ window | some parsed ↦ some parsed ]
]

unfoldable pub window_of_parts : Option ℤ → List Text → Option ℤ
unfolding window_of_part
window_of_parts window [] = window
window_of_parts window (part ∷ parts) = window_of_parts (window_of_part window part) parts

unfoldable pub cut_or_all : Text → ℕ → Text × Text
cut_or_all s sep = elim (cut s sep) [ none ↦ (s, []) | some (before, after) ↦ (before, after) ]

-- The count and the window in seconds; `none` where both pointers are nil.
unfoldable pub parse_rate_limit_header : Text → Option (ℤ × Option ℤ)
unfolding window_of_parts cut_or_all
parse_rate_limit_header raw =
    let value = trim_space raw in
    if is_empty value
    then none
    else let (first, rest) = cut_or_all value b';' in
      elim (atoi (trim_space first)) [
        | none ↦ none
        | some n ↦ some (n, window_of_parts none (split rest b';'))
      ]

abbrev no_info : RateLimitInfo
no_info = record { limit = none; remaining = none; used = none; window_seconds = none; source = [] }

unfoldable pub with_limit : RateLimitInfo → Option (ℤ × Option ℤ) → RateLimitInfo
with_limit info none = info
with_limit info (some (limit, window)) = record info {
  limit = some limit;
  window_seconds = window;
  source = rate_limit_source;
}

unfoldable pub with_remaining : RateLimitInfo → Option (ℤ × Option ℤ) → RateLimitInfo
with_remaining info none = info
with_remaining info (some (remaining, window)) = record info {
  remaining = some remaining;
  window_seconds = elim info.window_seconds [ none ↦ window | some seconds ↦ some seconds ];
  source = rate_limit_source;
}

unfoldable pub with_used : RateLimitInfo → Option ℤ → RateLimitInfo
with_used info none = info
with_used info (some used) = record info {
  used = some used;
  source = if is_empty info.source then codes "docker" else info.source;
}

unfoldable pub has_quota : RateLimitInfo → Bool
has_quota info = elim info.limit [
  | some limit ↦ true
  | none ↦ elim info.remaining [
    | some remaining ↦ true
    | none ↦ elim info.used [ some used ↦ true | none ↦ false ]
  ]
]

unfoldable pub extract_rate_limit_from_headers : (Text → Text) → Result RateLimitInfo
unfolding parse_rate_limit_header with_limit with_remaining with_used has_quota
extract_rate_limit_from_headers header =
    let info = with_limit no_info (parse_rate_limit_header (header (codes "Ratelimit-Limit"))) in
    let info' =
      with_remaining info (parse_rate_limit_header (header (codes "Ratelimit-Remaining"))) in
    let info'' = with_used info' (atoi (trim_space (header (codes "Docker-Ratelimit-Used")))) in
    if has_quota info'' then ok info'' else err (codes "no registry rate limit headers found")
