-- ===== src/Relay/RateLimit/Limits.antt =====
-- relay/server.ts: how many publish requests the relay lets through, and when a refused client may
-- come back.
use governance_seatbelt.Prelude.{
  ℕ, String, Option, none, some, List, [], ◌∷◌, true, ◌+◌, ◌-◌, ◌*◌, max, leb, map, if◌then◌else◌,
  ◌==◌, string_eq, ◌≡◌, ◌≢◌, ◌≤◌, refl, arith, Bool-cases, inl, inr, eq_iff, eq_refl, ◌∙◌, sym, All,
  length,
}
use governance_seatbelt.Dict.{lookup, IsDistinct}
use governance_seatbelt.Relay.Config.{RelayConfig}
use governance_seatbelt.Relay.RateLimit.{
  RateLimitBucket, Buckets, Allowance, allowed, refused, ensure_rate_limit_allowance,
  maybe_prune_rate_limit_buckets, admit, retry_after_seconds, is_kept,
}
use governance_seatbelt.Relay.RateLimit.Client.{
  judge, was_allowed, one_if, admitted, IsWithin, admitted-le,
}
use governance_seatbelt.Relay.RateLimit.Prune.{lookup-filter, filter-IsDistinct, kept}
use governance_seatbelt.Relay.RateLimit.Laws.{
  Arrival, IsInOrder, admit_all, judge_all, update, admit_all-judge_all, ensure-IsJudged,
}

-- How many of a client's requests are let through.
unfoldable pub allowed_to : String → List Arrival → List Allowance → ℕ
allowed_to key (a ∷ arrivals) (allowance ∷ allowances) =
    let rest = allowed_to key arrivals allowances in
    if a.client == key then one_if (was_allowed allowance) + rest else rest
allowed_to key _ _ = 0

abbrev times : List Arrival → List ℕ
times = map (λ a. a.at_ms)

abbrev times_of : String → List Arrival → List ℕ
times_of key [] = []
times_of key (a ∷ arrivals) =
    if a.client == key then a.at_ms ∷ times_of key arrivals else times_of key arrivals

allowed_to-judge_all :
    (config : RelayConfig) (clients : String → Option RateLimitBucket) (key : String)
    (arrivals : List Arrival)
    → allowed_to key arrivals (judge_all config clients arrivals)
      ≡ admitted config (clients key) (times_of key arrivals)
unfolding allowed_to judge_all admitted
allowed_to-judge_all config clients key [] = refl
allowed_to-judge_all config clients key (a ∷ arrivals) =
    let bucket = (judge config a.at_ms (clients a.client)).1 in
    let rest = allowed_to-judge_all config (update a.client bucket clients) key arrivals in
    elim (Bool-cases (a.client == key)) [
      | inl same ↦ rw same (rw (rest, same, (eq_iff a.client key).0 same) refl)
      | inr other ↦ rw other (rw (rest, other) refl)
    ]

IsWithin-sooner :
    (from later until : ℕ) (ts : List ℕ)
    → from ≤ later
    → IsWithin later until ts
    → IsWithin from until ts
IsWithin-sooner from later until [] h w = tt
IsWithin-sooner from later until (t ∷ ts) h (a, b, w) = (omega arith, b, w)

times_of-IsWithin :
    (key : String) (from until : ℕ) (arrivals : List Arrival)
    → IsWithin from until (times arrivals)
    → IsWithin from until (times_of key arrivals)
times_of-IsWithin key from until [] w = tt
times_of-IsWithin key from until (a ∷ arrivals) (x, y, w) =
    let rest = times_of-IsWithin key a.at_ms until arrivals w in
    elim (Bool-cases (a.client == key)) [
      | inl same ↦ rw same (x, y, rest)
      | inr other ↦ rw other (IsWithin-sooner from a.at_ms until _ x rest)
    ]

IsWithin-IsInOrder :
    (from until : ℕ) (arrivals : List Arrival)
    → IsWithin from until (times arrivals)
    → IsInOrder from arrivals
IsWithin-IsInOrder from until [] w = tt
IsWithin-IsInOrder from until (a ∷ arrivals) (x, y, w) =
    (x, IsWithin-IsInOrder a.at_ms until arrivals w)

-- Where the limits are on and the clock does not go back, at most twice the configured number of
-- requests of one client is let through among any requests that arrive within one window's time, or
-- one request if that number is 0; whatever other clients send and whatever buckets there are
-- before, as long as no client has two.
pub allowed_to-le :
    (config : RelayConfig) (key : String) (from until : ℕ) (buckets : Buckets)
    (arrivals : List Arrival)
    → config.rate_limit_enabled ≡ true
    → IsDistinct buckets
    → until ≤ from + config.rate_limit_window_ms
    → IsWithin from until (map (λ a. a.at_ms) arrivals)
    → allowed_to key arrivals (admit_all config buckets arrivals)
      ≤ config.rate_limit_max_requests + max 1 config.rate_limit_max_requests
allowed_to-le config key from until buckets arrivals on distinct window within =
    rw
      (admit_all-judge_all config from buckets arrivals on distinct
        (IsWithin-IsInOrder from until arrivals within))
      (rw (allowed_to-judge_all config (λ k. lookup k buckets) key arrivals) (
        admitted-le config (lookup key buckets) from until (times_of key arrivals) window
          (times_of-IsWithin key from until arrivals within)))

-- The buckets after a run of requests.
unfoldable pub buckets_after : RelayConfig → Buckets → List Arrival → Buckets
buckets_after config buckets [] = buckets
buckets_after config buckets (a ∷ arrivals) =
    buckets_after config (admit config a.client a.at_ms buckets).1 arrivals

-- A window that is over by some time.
abbrev IsOverBy : ℕ → ℕ → Option RateLimitBucket → Type 0
IsOverBy window_ms later_ms none = Unit
IsOverBy window_ms later_ms (some b) = b.window_start_ms + window_ms ≤ later_ms

record IsReady (window_ms later_ms : ℕ) (key : String) (buckets : Buckets) : Type 0 where
  distinct : IsDistinct buckets
  over : IsOverBy window_ms later_ms (lookup key buckets)

kept-IsOverBy :
    (now_ms window_ms later_ms : ℕ) (key : String) (b : Option RateLimitBucket)
    → IsOverBy window_ms later_ms b
    → IsOverBy window_ms later_ms (kept now_ms window_ms key b)
kept-IsOverBy now_ms window_ms later_ms key none h = tt
kept-IsOverBy now_ms window_ms later_ms key (some b) h = ground arith

prune-IsReady :
    (now_ms window_ms later_ms : ℕ) (key : String) (buckets : Buckets)
    → IsReady window_ms later_ms key buckets
    → IsReady window_ms later_ms key (maybe_prune_rate_limit_buckets buckets now_ms window_ms)
unfolding maybe_prune_rate_limit_buckets
prune-IsReady now_ms window_ms later_ms key buckets h =
    elim (Bool-cases (leb (length buckets) 10000)) [
      | inl few ↦ rw few h
      | inr many ↦ rw many (record {
        distinct = filter-IsDistinct (is_kept now_ms window_ms) buckets h.distinct;
        over =
            rw (lookup-filter now_ms window_ms key buckets h.distinct)
              (kept-IsOverBy now_ms window_ms later_ms key (lookup key buckets) h.over);
      })
    ]

prune-IsDistinct :
    (now_ms window_ms : ℕ) (buckets : Buckets)
    → IsDistinct buckets
    → IsDistinct (maybe_prune_rate_limit_buckets buckets now_ms window_ms)
unfolding maybe_prune_rate_limit_buckets
prune-IsDistinct now_ms window_ms buckets h = elim (Bool-cases (leb (length buckets) 10000)) [
  | inl few ↦ rw few h
  | inr many ↦ rw many (filter-IsDistinct (is_kept now_ms window_ms) buckets h)
]

buckets_after-IsReady :
    (config : RelayConfig) (later_ms : ℕ) (key : String) (buckets : Buckets)
    (arrivals : List Arrival)
    → config.rate_limit_enabled ≡ true
    → All (λ a. a.client ≢ key) arrivals
    → IsReady config.rate_limit_window_ms later_ms key buckets
    → IsReady config.rate_limit_window_ms later_ms key (buckets_after config buckets arrivals)
unfolding buckets_after admit
buckets_after-IsReady config later_ms key buckets [] on others h = h
buckets_after-IsReady config later_ms key buckets (a ∷ arrivals) on (other, others) h =
    let window_ms = config.rate_limit_window_ms in
    let pruned = prune-IsReady a.at_ms window_ms later_ms key buckets h in
    let m = maybe_prune_rate_limit_buckets buckets a.at_ms window_ms in
    let judged = ensure-IsJudged config a.client a.at_ms m on in
    buckets_after-IsReady config later_ms key (admit config a.client a.at_ms buckets).1 arrivals on
      others
      (record {
        distinct = judged.distinct pruned.distinct;
        over = rw (judged.bucket key) (elim (Bool-cases (a.client == key)) [
          | inl same ↦ absurd (other ((eq_iff a.client key).0 same))
          | inr differ ↦ rw differ pruned.over
        ]);
      })

admit-IsReady :
    (config : RelayConfig) (later_ms : ℕ) (key : String) (buckets : Buckets)
    → config.rate_limit_enabled ≡ true
    → IsReady config.rate_limit_window_ms later_ms key buckets
    → (admit config key later_ms buckets).0 ≡ allowed
unfolding admit
admit-IsReady config later_ms key buckets on h =
    let window_ms = config.rate_limit_window_ms in
    let pruned = prune-IsReady later_ms window_ms later_ms key buckets h in
    let m = maybe_prune_rate_limit_buckets buckets later_ms window_ms in
    (ensure-IsJudged config key later_ms m on).answer
    ∙ judge_over config later_ms (lookup key m) pruned.over
  where
    judge_over :
        (c : RelayConfig) (now_ms : ℕ) (b : Option RateLimitBucket)
        → IsOverBy c.rate_limit_window_ms now_ms b
        → (judge c now_ms b).0 ≡ allowed
    judge_over c now_ms none g = refl
    judge_over c now_ms (some b) g = ground arith

retry_after-enough : (ms : ℕ) → ms ≤ retry_after_seconds ms * 1000
retry_after-enough ms = ground arith

judge-refused :
    (config : RelayConfig) (now_ms later_ms seconds : ℕ) (b : Option RateLimitBucket)
    → (judge config now_ms b).0 ≡ refused seconds
    → now_ms + seconds * 1000 ≤ later_ms
    → IsOverBy config.rate_limit_window_ms later_ms (judge config now_ms b).1
judge-refused config now_ms later_ms seconds none refusal later = ground arith
judge-refused config now_ms later_ms seconds (some b) refusal later =
    ground (arith, retry_after-enough (config.rate_limit_window_ms + b.window_start_ms - now_ms))

-- Where the limits are on, a client that is refused and comes back once the seconds of its `retry-after`
-- are over is let through, whatever requests of other clients the relay has answered meanwhile.
pub admit-refused-retry :
    (config : RelayConfig) (key : String) (now_ms later_ms seconds : ℕ) (buckets : Buckets)
    (others : List Arrival)
    → config.rate_limit_enabled ≡ true
    → IsDistinct buckets
    → (admit config key now_ms buckets).0 ≡ refused seconds
    → All (λ a. a.client ≢ key) others
    → now_ms + seconds * 1000 ≤ later_ms
    → (admit config key later_ms
        (buckets_after config (admit config key now_ms buckets).1 others)).0
      ≡ allowed
unfolding admit
admit-refused-retry config key now_ms later_ms seconds buckets others on distinct refusal differ
      later =
    let window_ms = config.rate_limit_window_ms in
    let m = maybe_prune_rate_limit_buckets buckets now_ms window_ms in
    let judged = ensure-IsJudged config key now_ms m on in
    admit-IsReady config later_ms key _ on (
      buckets_after-IsReady config later_ms key (ensure_rate_limit_allowance config key now_ms m).1
        others on differ
        (record {
          distinct = judged.distinct (prune-IsDistinct now_ms window_ms buckets distinct);
          over =
              rw (judged.bucket key, eq_refl key)
                (judge-refused config now_ms later_ms seconds (lookup key m)
                  (sym judged.answer ∙ refusal) later);
        }))
