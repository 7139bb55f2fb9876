-- ===== src/Relay/RateLimit/Client.antt =====
-- relay/server.ts: the rate limit as one client sees it, by a bucket of its own that is never pruned.
use governance_seatbelt.Prelude.{
  ℕ, suc, Option, none, some, List, [], ◌∷◌, Bool, true, false, ◌+◌, ◌-◌, max, leb, if◌then◌else◌,
  string_eq, ◌≤◌, ◌<◌, arith,
}
use governance_seatbelt.Relay.Config.{RelayConfig}
use governance_seatbelt.Relay.RateLimit.{
  RateLimitBucket, Allowance, allowed, refused, fresh, retry_after_seconds,
}

-- The answer to a request, and the client's bucket after it.
abbrev pub judge : RelayConfig → ℕ → Option RateLimitBucket → Allowance × Option RateLimitBucket
judge config now_ms none = (allowed, some (fresh now_ms))
judge config now_ms (some bucket) =
    if leb (bucket.window_start_ms + config.rate_limit_window_ms) now_ms
    then (allowed, some (fresh now_ms))
    else if leb config.rate_limit_max_requests bucket.count
    then (
      refused (retry_after_seconds (config.rate_limit_window_ms + bucket.window_start_ms - now_ms)),
      some bucket,
    )
    else (allowed, some (record bucket { count = suc bucket.count }))

abbrev pub was_allowed : Allowance → Bool
was_allowed allowed = true
was_allowed (refused n) = false

abbrev pub one_if : Bool → ℕ
one_if true = 1
one_if false = 0

-- How many of a client's requests, by their times, are allowed.
unfoldable pub admitted : RelayConfig → Option RateLimitBucket → List ℕ → ℕ
admitted config bucket [] = 0
admitted config bucket (now_ms ∷ times) =
    let (allowance, next) = judge config now_ms bucket in
    one_if (was_allowed allowance) + admitted config next times

-- Times from some time on and before another, in any order that does not go back.
abbrev pub IsWithin : ℕ → ℕ → List ℕ → Type 0
IsWithin from until [] = Unit
IsWithin from until (t ∷ times) = (from ≤ t) × (t < until) × IsWithin t until times

abbrev cap : RelayConfig → ℕ
cap config = suc (config.rate_limit_max_requests - 1)

-- Before its window ends, a bucket admits what it has left.
admitted-le-left :
    (config : RelayConfig) (bucket : RateLimitBucket) (from until : ℕ) (times : List ℕ)
    → until ≤ bucket.window_start_ms + config.rate_limit_window_ms
    → IsWithin from until times
    → admitted config (some bucket) times ≤ config.rate_limit_max_requests - bucket.count
unfolding admitted
admitted-le-left config bucket from until [] h w = omega arith
admitted-le-left config bucket from until (t ∷ times) h (a, b, w) = ground (
  arith,
  admitted-le-left config bucket t until times h w,
  admitted-le-left config (record bucket { count = suc bucket.count }) t until times h w,
)

admitted-fresh :
    (config : RelayConfig) (start until : ℕ) (times : List ℕ)
    → until ≤ start + config.rate_limit_window_ms
    → IsWithin start until times
    → suc (admitted config (some (fresh start)) times) ≤ cap config
admitted-fresh config start until times h w =
    omega (arith, admitted-le-left config (fresh start) start until times h w)

-- A window's worth of requests meets at most one new window.
admitted-some :
    (config : RelayConfig) (bucket : RateLimitBucket) (from until : ℕ) (times : List ℕ)
    → until ≤ from + config.rate_limit_window_ms
    → IsWithin from until times
    → admitted config (some bucket) times
      ≤ (config.rate_limit_max_requests - bucket.count) + cap config
unfolding admitted
admitted-some config bucket from until [] h w = omega arith
admitted-some config bucket from until (t ∷ times) h (a, b, w) = ground (
  arith,
  admitted-fresh config t until times (omega arith) w,
  admitted-some config bucket t until times (omega arith) w,
  admitted-some config (record bucket { count = suc bucket.count }) t until times (omega arith) w,
)

pub admitted-le :
    (config : RelayConfig) (bucket : Option RateLimitBucket) (from until : ℕ) (times : List ℕ)
    → until ≤ from + config.rate_limit_window_ms
    → IsWithin from until times
    → admitted config bucket times
      ≤ config.rate_limit_max_requests + max 1 config.rate_limit_max_requests
unfolding admitted
admitted-le config bucket from until [] h w = omega arith
admitted-le config none from until (t ∷ times) h (a, b, w) =
    omega (arith, admitted-fresh config t until times (omega arith) w)
admitted-le config (some bucket) from until (t ∷ times) h w =
    omega (arith, admitted-some config bucket from until (t ∷ times) h w)
