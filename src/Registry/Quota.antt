-- ===== src/Registry/Quota.antt =====
-- What the pull quota says.
use updater.Common.{
  ◌≡◌, refl, Bool, true, false, ◌||◌, Option, none, some, [], if◌then◌else◌, Result, ok, err, Text,
  codes, is_empty, trim_space,
}
use updater.Common.Int.{ℤ, atoi}
use updater.Registry.RateLimit.{
  RateLimitInfo, rate_limit_source, parse_rate_limit_header, with_limit, with_remaining, with_used,
  has_quota, extract_rate_limit_from_headers,
}

abbrev pub count_of : Option (ℤ × Option ℤ) → Option ℤ
count_of none = none
count_of (some (n, window)) = some n

abbrev pub window_of : Option (ℤ × Option ℤ) → Option ℤ
window_of none = none
window_of (some (n, window)) = window

abbrev pub or_else : Option ℤ → Option ℤ → Option ℤ
or_else none b = b
or_else (some a) b = some a

abbrev pub is_some : {A : Type 0} → Option A → Bool
is_some none = false
is_some (some a) = true

-- What three headers say: each count stands for itself, the window is that of the limit or else
-- that of what remains, and the source tells whether one of these two is there.
abbrev pub described : Option (ℤ × Option ℤ) → Option (ℤ × Option ℤ) → Option ℤ → RateLimitInfo
described limit remaining used = record {
  limit = count_of limit;
  remaining = count_of remaining;
  used = used;
  window_seconds = or_else (window_of limit) (window_of remaining);
  source = if is_some limit || is_some remaining then rate_limit_source else codes "docker";
}

abbrev answer : Option (ℤ × Option ℤ) → Option (ℤ × Option ℤ) → Option ℤ → Result RateLimitInfo
answer limit remaining used =
    if is_some limit || (is_some remaining || is_some used)
    then ok (described limit remaining used)
    else err (codes "no registry rate limit headers found")

abbrev start : RateLimitInfo
start = record { limit = none; remaining = none; used = none; window_seconds = none; source = [] }

abbrev gathered : Option (ℤ × Option ℤ) → Option (ℤ × Option ℤ) → Option ℤ → Result RateLimitInfo
gathered limit remaining used =
    let info = with_used (with_remaining (with_limit start limit) remaining) used in
    if has_quota info then ok info else err (codes "no registry rate limit headers found")

gathered-answer :
    (limit remaining : Option (ℤ × Option ℤ)) (used : Option ℤ)
    → gathered limit remaining used ≡ answer limit remaining used
unfolding with_used with_remaining with_limit has_quota codes is_empty
gathered-answer none none none = refl
gathered-answer none none (some u) = refl
gathered-answer none (some (r, w)) none = refl
gathered-answer none (some (r, w)) (some u) = refl
gathered-answer (some (l, none)) none none = refl
gathered-answer (some (l, none)) none (some u) = refl
gathered-answer (some (l, none)) (some (r, w)) none = refl
gathered-answer (some (l, none)) (some (r, w)) (some u) = refl
gathered-answer (some (l, some v)) none none = refl
gathered-answer (some (l, some v)) none (some u) = refl
gathered-answer (some (l, some v)) (some (r, w)) none = refl
gathered-answer (some (l, some v)) (some (r, w)) (some u) = refl

-- The quota is an error exactly where none of the three headers has a number, and otherwise
-- consists of the numbers that are there, with the window of the limit or else of what remains,
-- and the source "ratelimit" where one of these two is there, "docker" where only the use is.
pub extract_rate_limit-described :
    (header : Text → Text)
    → let limit = parse_rate_limit_header (header (codes "Ratelimit-Limit")) in
      let remaining = parse_rate_limit_header (header (codes "Ratelimit-Remaining")) in
      let used = atoi (trim_space (header (codes "Docker-Ratelimit-Used"))) in
      extract_rate_limit_from_headers header ≡ (
        if is_some limit || (is_some remaining || is_some used)
        then ok (described limit remaining used)
        else err (codes "no registry rate limit headers found"))
unfolding extract_rate_limit_from_headers
extract_rate_limit-described header = gathered-answer _ _ _
