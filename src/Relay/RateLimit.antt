-- ===== src/Relay/RateLimit.antt =====
-- relay/server.ts: the limits on the publish requests of a client.
mod Client
mod Prune
pub mod Laws
pub mod Limits
use governance_seatbelt.Prelude.{
  ℕ, suc, String, Option, none, some, List, [], ◌∷◌, Bool, true, false, ◌+◌, ◌-◌, ◌*◌, ◌/◌, ltb,
  leb, not, if◌then◌else◌, ◌==◌, string_eq, length, filter_by,
}
use governance_seatbelt.Dict.{Dict, lookup, put}
use governance_seatbelt.Relay.Config.{RelayConfig}

pub record RateLimitBucket : Type 0 where
  pub count : ℕ
  pub window_start_ms : ℕ

abbrev pub Buckets : Type 0
Buckets = Dict String RateLimitBucket

pub data Allowance : Type 0 where
  allowed : Allowance
  -- with `retryAfterSeconds`
  refused : ℕ → Allowance

abbrev pub fresh : ℕ → RateLimitBucket
fresh now_ms = record { count = 1; window_start_ms = now_ms }

-- `Math.max(1, Math.ceil(retryAfterMs / 1000))`
abbrev pub retry_after_seconds : ℕ → ℕ
retry_after_seconds retry_after_ms =
    let seconds = (retry_after_ms + 999) / 1000 in if ltb 1 seconds then seconds else 1

-- Differences of times are written as sums on the other side: a clock that goes back is not too early
-- for them.
unfoldable pub ensure_rate_limit_allowance :
    RelayConfig → String → ℕ → Buckets → Allowance × Buckets
ensure_rate_limit_allowance config key now_ms buckets =
    if not config.rate_limit_enabled then (allowed, buckets) else (elim (lookup key buckets) [
      | none ↦ (allowed, put key (fresh now_ms) buckets)
      | some bucket ↦
          if leb (bucket.window_start_ms + config.rate_limit_window_ms) now_ms
          then (allowed, put key (fresh now_ms) buckets)
          else if leb config.rate_limit_max_requests bucket.count
          then (
            refused (
                retry_after_seconds
                  (config.rate_limit_window_ms + bucket.window_start_ms - now_ms)),
            buckets,
          )
          else (allowed, put key (record bucket { count = suc bucket.count }) buckets)
    ])

-- `!(nowMs - bucket.windowStartMs > windowMs * 2)`
abbrev pub is_kept : ℕ → ℕ → String × RateLimitBucket → Bool
is_kept now_ms window_ms (key, bucket) = leb now_ms (bucket.window_start_ms + window_ms * 2)

unfoldable pub maybe_prune_rate_limit_buckets : Buckets → ℕ → ℕ → Buckets
maybe_prune_rate_limit_buckets buckets now_ms window_ms =
    if leb (length buckets) 10000 then buckets else filter_by (is_kept now_ms window_ms) buckets

-- The start of a publish request: pruning, then the test of the client's allowance.
unfoldable pub admit : RelayConfig → String → ℕ → Buckets → Allowance × Buckets
unfolding ensure_rate_limit_allowance maybe_prune_rate_limit_buckets
admit config key now_ms buckets =
    ensure_rate_limit_allowance config key now_ms
      (maybe_prune_rate_limit_buckets buckets now_ms config.rate_limit_window_ms)
