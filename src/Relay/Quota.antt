-- ===== src/Relay/Quota.antt =====
-- relay/simulation-gateway.ts: the limits on the use of the gateway, which Redis counts.
pub mod Laws
use governance_seatbelt.Prelude.{
  ℕ, suc, String, Option, none, some, List, [], ◌∷◌, ◌++◌, Bool, true, false, leb, ltb,
  if◌then◌else◌, ◌==◌, nat_eq,
}
use governance_seatbelt.Text.{concat, to_decimal}

-- A key, the seconds that it counts for, and its limit.
pub record Limit : Type 0 where
  pub key : String
  pub seconds : ℕ
  pub count : ℕ

-- The commands of Redis that the script calls: `GET` as a number, `TTL` (0 where it is negative), `INCR` and
-- `EXPIRE`.
pub record Redis (S : Type 0) : Type 0 where
  pub get : String → S → ℕ
  pub ttl : String → S → ℕ
  pub incr : String → S → ℕ × S
  pub expire : String → ℕ → S → S

module _ {S : Type 0} (redis : Redis S) where
  -- The first loop: how long to wait for the first quota that is used up.
  pub used_up : List Limit → S → Option ℕ
  used_up [] s = none
  used_up (limit ∷ limits) s =
      let rest = used_up limits s in
      let seconds = redis.ttl limit.key s in
      if leb limit.count (redis.get limit.key s)
      then some (if ltb 1 seconds then seconds else 1)
      else rest

  -- One round of the second loop.
  pub count_use : Limit → S → S
  count_use limit s =
      let (value, next) = redis.incr limit.key s in
      if value == 1 then redis.expire limit.key limit.seconds next else next

  pub count_uses : List Limit → S → S
  unfolding count_use
  count_uses [] s = s
  count_uses (limit ∷ limits) s = count_uses limits (count_use limit s)

  pub quota_script : List Limit → S → ℕ × S
  unfolding used_up count_uses
  quota_script limits s = elim (used_up limits s) [
    | some seconds ↦ (seconds, s)
    | none ↦ (0, count_uses limits s)
  ]

abbrev limit_key : String → String
limit_key name = concat "seatbelt:gateway:" name

abbrev when : Bool → Limit → List Limit
when true limit = limit ∷ []
when false limit = []

pub limits_of : ℕ → ℕ → Bool → Bool → List Limit
limits_of daily_limit chain trace explorer =
    (record { key = limit_key "day"; seconds = 86400; count = daily_limit }
      ∷ record { key = limit_key "minute"; seconds = 60; count = 6000 }
      ∷ [])
    ++ when trace
        (record { key = limit_key (concat "trace:" (to_decimal chain)); seconds = 1; count = 20 })
    ++ when explorer (record { key = limit_key "explorer"; seconds = 1; count = 3 })
