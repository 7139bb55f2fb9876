-- ===== src/Relay/Quota/Laws.antt =====
-- relay/simulation-gateway.ts: what the script of the limits does.
use governance_seatbelt.Prelude.{
  ℕ, suc, String, none, some, List, [], ◌∷◌, false, leb, ◌==◌, nat_eq, ◌≡◌, ◌≢◌, ◌≤◌, ◌<◌, refl,
  arith, All, Some, map, Bool-cases, inl, inr, ap, sym, ◌∙◌, Option-cases, string_eq, eq_iff,
  none≢some,
}
use governance_seatbelt.Dedupe.{has}
use governance_seatbelt.Dedupe.Laws.{IsDeduped}
use governance_seatbelt.Relay.Quota.{Limit, Redis, used_up, count_use, count_uses, quota_script}

-- What Redis does, as far as the script relies on it.
pub record IsRedis {S : Type 0} (redis : Redis S) : Type 0 where
  pub get_incr : (key : String) (s : S) → redis.get key (redis.incr key s).1 ≡ suc (redis.get key s)
  pub get_incr_other :
      (key other : String) (s : S)
      → key ≢ other
      → redis.get other (redis.incr key s).1 ≡ redis.get other s
  -- a time in the future takes nothing away now
  pub get_expire :
      (key other : String) (seconds : ℕ) (s : S)
      → 0 < seconds
      → redis.get other (redis.expire key seconds s) ≡ redis.get other s

away_differ :
    (key other : String) (keys : List String) → has other (key ∷ keys) ≡ false → key ≢ other
away_differ key other keys away same = ground (arith, eq_iff key other)

-- What a run of the script comes to.
pub data IsQuota {S : Type 0} (redis : Redis S) (limits : List Limit) (s : S) (out : ℕ × S)
    : Type 0 where
  refused :
      0 < out.0
      → out.1 ≡ s
      → Some (λ l. l.count ≤ redis.get l.key s) limits
      → IsQuota redis limits s out
  counted :
      out.0 ≡ 0
      → All
          (λ l. (redis.get l.key s < l.count) × (redis.get l.key out.1 ≡ suc (redis.get l.key s)))
          limits
      → ((other : String)
          → has other (map (λ l. l.key) limits) ≡ false
          → redis.get other out.1 ≡ redis.get other s)
      → IsQuota redis limits s out

module _ {S : Type 0} (redis : Redis S) (h : IsRedis redis) where
  get-count_use :
      (limit : Limit) (s : S)
      → 0 < limit.seconds
      → redis.get limit.key (count_use redis limit s) ≡ suc (redis.get limit.key s)
  unfolding count_use
  get-count_use limit s lasts = elim (Bool-cases ((redis.incr limit.key s).0 == 1)) [
    | inl first ↦ rw first (
        h.get_expire limit.key limit.key limit.seconds (redis.incr limit.key s).1 lasts
        ∙ h.get_incr limit.key s)
    | inr later ↦ rw later (h.get_incr limit.key s)
  ]

  get-count_use_other :
      (limit : Limit) (other : String) (s : S)
      → 0 < limit.seconds
      → limit.key ≢ other
      → redis.get other (count_use redis limit s) ≡ redis.get other s
  unfolding count_use
  get-count_use_other limit other s lasts differ =
      elim (Bool-cases ((redis.incr limit.key s).0 == 1)) [
        | inl first ↦ rw first (
            h.get_expire limit.key other limit.seconds (redis.incr limit.key s).1 lasts
            ∙ h.get_incr_other limit.key other s differ)
        | inr later ↦ rw later (h.get_incr_other limit.key other s differ)
      ]

  get-count_uses_other :
      (limits : List Limit) (other : String) (s : S)
      → All (λ l. 0 < l.seconds) limits
      → has other (map (λ l. l.key) limits) ≡ false
      → redis.get other (count_uses redis limits s) ≡ redis.get other s
  unfolding count_uses
  get-count_uses_other [] other s lasts away = refl
  get-count_uses_other (limit ∷ limits) other s (last, lasts) away =
      get-count_uses_other limits other (count_use redis limit s) lasts (ground arith)
      ∙ get-count_use_other limit other s last
          (away_differ limit.key other (map (λ l. l.key) limits) away)

  used_up-none :
      (limits : List Limit) (s : S)
      → used_up redis limits s ≡ none
      → All (λ l. redis.get l.key s < l.count) limits
  unfolding used_up
  used_up-none [] s none_used = tt
  used_up-none (limit ∷ limits) s none_used = ground (arith, used_up-none limits s)

  used_up-some :
      (limits : List Limit) (s : S) (seconds : ℕ)
      → used_up redis limits s ≡ some seconds
      → (0 < seconds) × Some (λ l. l.count ≤ redis.get l.key s) limits
  unfolding used_up
  used_up-some [] s seconds one_used = absurd (none≢some one_used)
  used_up-some (limit ∷ limits) s seconds one_used =
      elim (Bool-cases (leb limit.count (redis.get limit.key s))) [
        | inl used ↦ ground arith
        | inr free ↦ ground (arith, used_up-some limits s seconds)
      ]

  others_same :
      (limit : Limit) (limits : List Limit) (s t : S)
      → 0 < limit.seconds
      → has limit.key (map (λ l. l.key) limits) ≡ false
      → All (λ l. redis.get l.key t ≡ redis.get l.key s) limits
      → All (λ l. redis.get l.key (count_use redis limit t) ≡ redis.get l.key s) limits
  others_same limit [] s t lasts away same = tt
  others_same limit (l ∷ limits) s t lasts away (one, same) = (
    get-count_use_other limit l.key t lasts
          (λ e. away_differ l.key limit.key (map (λ x. x.key) limits) away (sym e))
        ∙ one,
    others_same limit limits s t lasts (ground arith) same,
  )

  rises :
      (limits : List Limit) (s t : S)
      → All (λ l. 0 < l.seconds) limits
      → IsDeduped (map (λ l. l.key) limits)
      → All (λ l. redis.get l.key s < l.count) limits
      → All (λ l. redis.get l.key t ≡ redis.get l.key s) limits
      → All
          (λ l.
            (redis.get l.key s < l.count)
            × (redis.get l.key (count_uses redis limits t) ≡ suc (redis.get l.key s)))
          limits
  unfolding count_uses
  rises [] s t lasts once free same = tt
  rises (limit ∷ limits) s t (last, lasts) (away, once) (room, free) (one, same) = (
    (
      room,
      get-count_uses_other limits limit.key (count_use redis limit t) lasts away
          ∙ get-count_use limit t last
          ∙ ap suc one,
    ),
    rises limits s (count_use redis limit t) lasts once free
        (others_same limit limits s t last away same),
  )

  unchanged :
      (limits : List Limit) (s : S) → All (λ l. redis.get l.key s ≡ redis.get l.key s) limits
  unchanged [] s = tt
  unchanged (limit ∷ limits) s = (refl, unchanged limits s)

  -- For limits of different keys, the script either answers how long to wait, because one of them is used
  -- up, and counts nothing; or answers 0 with none of them used up, and counts one use for each of
  -- them and for no other key. So no count passes its limit.
  pub quota_script-IsQuota :
      (limits : List Limit) (s : S)
      → All (λ l. 0 < l.seconds) limits
      → IsDeduped (map (λ l. l.key) limits)
      → IsQuota redis limits s (quota_script redis limits s)
  unfolding quota_script
  quota_script-IsQuota limits s lasts once = elim (Option-cases (used_up redis limits s)) [
    | inl free ↦
        rw (free, quota_script)
          (counted refl
            (rises limits s s lasts once (used_up-none limits s free) (unchanged limits s))
            (λ other away. get-count_uses_other limits other s lasts away))
    | inr (seconds, used) ↦
        let (long, which) = used_up-some limits s seconds used in
        rw (used, quota_script) (refused long refl which)
  ]
