-- ===== src/Relay/RateLimit/Prune.antt =====
-- relay/server.ts: pruning takes away only buckets whose windows are over.
use governance_seatbelt.Prelude.{
  ℕ, String, Option, none, some, [], ◌∷◌, Bool, ◌+◌, leb, if◌then◌else◌, string_eq, ◌≡◌, ◌≤◌, refl,
  arith, Bool-cases, inl, inr, filter_by, eq_iff, length,
}
use governance_seatbelt.Dict.{lookup, IsDistinct}
use governance_seatbelt.Relay.Config.{RelayConfig}
use governance_seatbelt.Relay.RateLimit.{
  RateLimitBucket, Buckets, is_kept, maybe_prune_rate_limit_buckets,
}
use governance_seatbelt.Relay.RateLimit.Client.{judge}

-- A bucket of the map against the one of a map that is never pruned: the same, or gone when its
-- window is over.
abbrev pub AgreesAt : ℕ → ℕ → Option RateLimitBucket → Option RateLimitBucket → Type 0
AgreesAt window_ms now_ms none none = Unit
AgreesAt window_ms now_ms none (some b) = b.window_start_ms + window_ms ≤ now_ms
AgreesAt window_ms now_ms (some a) none = ⊥
AgreesAt window_ms now_ms (some a) (some b) = a ≡ b

pub AgreesAt-later :
    (window_ms now_ms later_ms : ℕ) (a b : Option RateLimitBucket)
    → now_ms ≤ later_ms
    → AgreesAt window_ms now_ms a b
    → AgreesAt window_ms later_ms a b
AgreesAt-later window_ms now_ms later_ms none none h g = tt
AgreesAt-later window_ms now_ms later_ms none (some b) h g = omega arith
AgreesAt-later window_ms now_ms later_ms (some a) (some b) h g = g
AgreesAt-later window_ms now_ms later_ms (some a) none h g = g

pub AgreesAt-refl :
    (window_ms now_ms : ℕ) (a : Option RateLimitBucket) → AgreesAt window_ms now_ms a a
AgreesAt-refl window_ms now_ms none = tt
AgreesAt-refl window_ms now_ms (some a) = refl

-- A client's answer does not depend on such a bucket.
pub judge-AgreesAt :
    (config : RelayConfig) (now_ms : ℕ) (a b : Option RateLimitBucket)
    → AgreesAt config.rate_limit_window_ms now_ms a b
    → judge config now_ms a ≡ judge config now_ms b
judge-AgreesAt config now_ms none none h = refl
judge-AgreesAt config now_ms none (some b) h = ground arith
judge-AgreesAt config now_ms (some a) (some b) h = rw h refl
judge-AgreesAt config now_ms (some a) none h = absurd h

abbrev pub kept : ℕ → ℕ → String → Option RateLimitBucket → Option RateLimitBucket
kept now_ms window_ms key none = none
kept now_ms window_ms key (some b) = if is_kept now_ms window_ms (key, b) then some b else none

lookup-filter_none :
    (p : String × RateLimitBucket → Bool) (key : String) (buckets : Buckets)
    → lookup key buckets ≡ none
    → lookup key (filter_by p buckets) ≡ none
unfolding lookup
lookup-filter_none p key [] h = refl
lookup-filter_none p key ((k, b) ∷ buckets) h = ground (arith, lookup-filter_none p key buckets)

pub lookup-filter :
    (now_ms window_ms : ℕ) (key : String) (buckets : Buckets)
    → IsDistinct buckets
    → lookup key (filter_by (is_kept now_ms window_ms) buckets)
      ≡ kept now_ms window_ms key (lookup key buckets)
unfolding lookup
lookup-filter now_ms window_ms key [] h = refl
lookup-filter now_ms window_ms key ((k, b) ∷ buckets) (f, h) = ground (
  arith,
  eq_iff k key,
  lookup-filter now_ms window_ms key buckets h,
  lookup-filter_none (is_kept now_ms window_ms) k buckets f,
)

pub filter-IsDistinct :
    (p : String × RateLimitBucket → Bool) (buckets : Buckets)
    → IsDistinct buckets
    → IsDistinct (filter_by p buckets)
filter-IsDistinct p [] h = tt
filter-IsDistinct p ((k, b) ∷ buckets) (f, h) =
    ground (arith, filter-IsDistinct p buckets h, lookup-filter_none p k buckets f)

kept-AgreesAt :
    (now_ms window_ms : ℕ) (key : String) (a b : Option RateLimitBucket)
    → AgreesAt window_ms now_ms a b
    → AgreesAt window_ms now_ms (kept now_ms window_ms key a) b
kept-AgreesAt now_ms window_ms key none none h = tt
kept-AgreesAt now_ms window_ms key none (some b) h = h
kept-AgreesAt now_ms window_ms key (some a) (some b) h = ground arith
kept-AgreesAt now_ms window_ms key (some a) none h = absurd h

-- The map against one bucket for each client.
pub record Agrees (window_ms now_ms : ℕ) (buckets : Buckets)
    (clients : String → Option RateLimitBucket) : Type 0 where
  pub distinct : IsDistinct buckets
  pub agree : (key : String) → AgreesAt window_ms now_ms (lookup key buckets) (clients key)

pub prune-Agrees :
    (window_ms now_ms : ℕ) (buckets : Buckets) (clients : String → Option RateLimitBucket)
    → Agrees window_ms now_ms buckets clients
    → Agrees window_ms now_ms (maybe_prune_rate_limit_buckets buckets now_ms window_ms) clients
unfolding maybe_prune_rate_limit_buckets
prune-Agrees window_ms now_ms buckets clients h = elim (Bool-cases (leb (length buckets) 10000)) [
  | inl few ↦ rw few h
  | inr many ↦ rw many (record {
    distinct = filter-IsDistinct (is_kept now_ms window_ms) buckets h.distinct;
    agree = λ key.
        rw (lookup-filter now_ms window_ms key buckets h.distinct)
          (kept-AgreesAt now_ms window_ms key (lookup key buckets) (clients key) (h.agree key));
  })
]
