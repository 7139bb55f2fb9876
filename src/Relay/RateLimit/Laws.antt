-- ===== src/Relay/RateLimit/Laws.antt =====
-- relay/server.ts: what a run of publish requests is told.
use governance_seatbelt.Prelude.{
  ℕ, suc, String, Option, some, List, [], ◌∷◌, true, ◌+◌, leb, if◌then◌else◌, ◌==◌, string_eq, ◌≡◌,
  ◌≤◌, refl, arith, Bool-cases, Option-cases, inl, inr, eq_iff, ap, ◌∙◌,
}
use governance_seatbelt.Dict.{lookup, IsDistinct}
use governance_seatbelt.Dict.Laws.{lookup-put, put-IsDistinct}
use governance_seatbelt.Relay.Config.{RelayConfig}
use governance_seatbelt.Relay.RateLimit.{
  RateLimitBucket, Buckets, Allowance, fresh, ensure_rate_limit_allowance,
  maybe_prune_rate_limit_buckets, admit,
}
use governance_seatbelt.Relay.RateLimit.Client.{judge}
use governance_seatbelt.Relay.RateLimit.Prune.{
  AgreesAt-later, AgreesAt-refl, judge-AgreesAt, Agrees, prune-Agrees,
}

-- A publish request: its client and its time.
pub record Arrival : Type 0 where
  pub client : String
  pub at_ms : ℕ

-- The clock does not go back.
abbrev pub IsInOrder : ℕ → List Arrival → Type 0
IsInOrder from [] = Unit
IsInOrder from (a ∷ arrivals) = (from ≤ a.at_ms) × IsInOrder a.at_ms arrivals

-- The answers to a run of requests.
unfoldable pub admit_all : RelayConfig → Buckets → List Arrival → List Allowance
admit_all config buckets [] = []
admit_all config buckets (a ∷ arrivals) =
    let (allowance, next) = admit config a.client a.at_ms buckets in
    allowance ∷ admit_all config next arrivals

-- The same, with a bucket for each client that nothing else touches.
abbrev pub update :
    String
    → Option RateLimitBucket
    → (String → Option RateLimitBucket)
    → String
    → Option RateLimitBucket
update key bucket clients k = if key == k then bucket else clients k

unfoldable pub judge_all :
    RelayConfig → (String → Option RateLimitBucket) → List Arrival → List Allowance
judge_all config clients [] = []
judge_all config clients (a ∷ arrivals) =
    let (allowance, bucket) = judge config a.at_ms (clients a.client) in
    allowance ∷ judge_all config (update a.client bucket clients) arrivals

-- One request, without pruning, against the client's bucket.
pub record IsJudged (config : RelayConfig) (key : String) (now_ms : ℕ) (buckets : Buckets)
    (out : Allowance × Buckets) : Type 0 where
  pub answer : out.0 ≡ (judge config now_ms (lookup key buckets)).0
  pub bucket :
      (k : String)
      → lookup k out.1
        ≡ (if key == k then (judge config now_ms (lookup key buckets)).1 else lookup k buckets)
  pub distinct : IsDistinct buckets → IsDistinct out.1

same_lookup :
    (key k : String) (b : RateLimitBucket) (buckets : Buckets)
    → lookup key buckets ≡ some b
    → lookup k buckets ≡ (if key == k then some b else lookup k buckets)
same_lookup key k b buckets found = elim (Bool-cases (key == k)) [
  | inl same ↦ rw (same, ← (eq_iff key k).0 same) found
  | inr other ↦ rw other refl
]

pub ensure-IsJudged :
    (config : RelayConfig) (key : String) (now_ms : ℕ) (buckets : Buckets)
    → config.rate_limit_enabled ≡ true
    → IsJudged config key now_ms buckets (ensure_rate_limit_allowance config key now_ms buckets)
unfolding ensure_rate_limit_allowance
ensure-IsJudged config key now_ms buckets on = elim (Option-cases (lookup key buckets)) [
  | inl new ↦
      rw (on, new)
        (record {
          answer = rw new refl;
          bucket = λ k. rw new (lookup-put key k (fresh now_ms) buckets);
          distinct = put-IsDistinct key (fresh now_ms) buckets;
        })
  | inr (b, found) ↦
      elim (Bool-cases (leb (b.window_start_ms + config.rate_limit_window_ms) now_ms)) [
        | inl over ↦
            rw (on, found, over)
              (record {
                answer = rw (found, over) refl;
                bucket = λ k. rw (found, over) (lookup-put key k (fresh now_ms) buckets);
                distinct = put-IsDistinct key (fresh now_ms) buckets;
              })
        | inr going ↦ elim (Bool-cases (leb config.rate_limit_max_requests b.count)) [
          | inl spent ↦
              rw (on, found, going, spent)
                (record {
                  answer = rw (found, going, spent) refl;
                  bucket = λ k. rw (found, going, spent) (same_lookup key k b buckets found);
                  distinct = λ h. h;
                })
          | inr left ↦
              rw (on, found, going, left)
                (record {
                  answer = rw (found, going, left) refl;
                  bucket = λ k.
                      rw (found, going, left)
                        (lookup-put key k (record b { count = suc b.count }) buckets);
                  distinct = put-IsDistinct key (record b { count = suc b.count }) buckets;
                })
        ]
      ]
]

ensure-Agrees :
    (config : RelayConfig) (key : String) (now_ms from : ℕ) (buckets : Buckets)
    (clients : String → Option RateLimitBucket)
    → config.rate_limit_enabled ≡ true
    → from ≤ now_ms
    → Agrees config.rate_limit_window_ms from buckets clients
    → Agrees config.rate_limit_window_ms now_ms
        (ensure_rate_limit_allowance config key now_ms buckets).1
        (update key (judge config now_ms (clients key)).1 clients)
ensure-Agrees config key now_ms from buckets clients on order h =
    let judged = ensure-IsJudged config key now_ms buckets on in
    record {
      distinct = judged.distinct h.distinct;
      agree = λ k. rw (judged.bucket k) (elim (Bool-cases (key == k)) [
        | inl same ↦
            rw
              (
                same,
                judge-AgreesAt config now_ms (lookup key buckets) (clients key)
                    (AgreesAt-later _ from now_ms _ _ order (h.agree key)),
              )
              (AgreesAt-refl _ now_ms _)
        | inr other ↦ rw other (AgreesAt-later _ from now_ms _ _ order (h.agree k))
      ]);
    }

Agrees-later :
    (window_ms from now_ms : ℕ) (buckets : Buckets) (clients : String → Option RateLimitBucket)
    → from ≤ now_ms
    → Agrees window_ms from buckets clients
    → Agrees window_ms now_ms buckets clients
Agrees-later window_ms from now_ms buckets clients order h = record {
  distinct = h.distinct;
  agree = λ k. AgreesAt-later window_ms from now_ms _ _ order (h.agree k);
}

admit_all-Agrees :
    (config : RelayConfig) (from : ℕ) (buckets : Buckets)
    (clients : String → Option RateLimitBucket) (arrivals : List Arrival)
    → config.rate_limit_enabled ≡ true
    → Agrees config.rate_limit_window_ms from buckets clients
    → IsInOrder from arrivals
    → admit_all config buckets arrivals ≡ judge_all config clients arrivals
unfolding admit_all judge_all admit
admit_all-Agrees config from buckets clients [] on h order = refl
admit_all-Agrees config from buckets clients (a ∷ arrivals) on h (at, order) =
    let now = Agrees-later _ from a.at_ms buckets clients at h in
    let pruned = prune-Agrees config.rate_limit_window_ms a.at_ms buckets clients now in
    let m = maybe_prune_rate_limit_buckets buckets a.at_ms config.rate_limit_window_ms in
    let same =
      (ensure-IsJudged config a.client a.at_ms m on).answer
      ∙ ap (λ r. r.0)
          (judge-AgreesAt config a.at_ms (lookup a.client m) (clients a.client)
            (pruned.agree a.client)) in
    let rest =
      admit_all-Agrees config a.at_ms _ _ arrivals on
        (ensure-Agrees config a.client a.at_ms a.at_ms m clients on (omega arith) pruned) order in
    cc (same, rest)

own_buckets-Agrees :
    (window_ms from : ℕ) (buckets : Buckets)
    → IsDistinct buckets
    → Agrees window_ms from buckets (λ k. lookup k buckets)
own_buckets-Agrees window_ms from buckets h = record {
  distinct = h;
  agree = λ k. AgreesAt-refl window_ms from (lookup k buckets);
}

-- Where the limits are on and the clock does not go back, a run of publish requests is answered as if
-- every client had a bucket of its own that no other client touches and that is never pruned.
pub admit_all-judge_all :
    (config : RelayConfig) (from : ℕ) (buckets : Buckets) (arrivals : List Arrival)
    → config.rate_limit_enabled ≡ true
    → IsDistinct buckets
    → IsInOrder from arrivals
    → admit_all config buckets arrivals ≡ judge_all config (λ k. lookup k buckets) arrivals
admit_all-judge_all config from buckets arrivals on distinct order =
    admit_all-Agrees config from buckets _ arrivals on
      (own_buckets-Agrees config.rate_limit_window_ms from buckets distinct) order
