-- ===== src/Relay/Vercel/Laws.antt =====
-- relay/vercel-runtime-publisher.ts: the loop for an alias ends.
use governance_seatbelt.Prelude.{
  ℕ, zero, suc, String, Option, none, some, false, ◌+◌, ◌-◌, ◌*◌, ◌^◌, min, not, ◌≡◌, ◌≢◌, ◌≤◌, ◌<◌,
  ◌⊎◌, inl, inr, refl, arith, if◌then◌else◌, ◌==◌, nat_eq, string_eq, Bool-cases, ap, ◌||◌,
}
use governance_seatbelt.Text.{concat}
use governance_seatbelt.Relay.Execution.{PublisherResult}
use governance_seatbelt.Relay.Vercel.{
  CreatedDeployment, AliasAnswer, aliased, fails, Ended, alias_url, threw, exhausted, Machine,
  AliasResponse, is_retryable_alias_error, alias_answer, create_publish_alias, retry_delay_ms,
  retry_from, create_publish_alias_with_retry, base_url, published_at, publish_deployment,
}

-- A clock that does not go back, and a sleep that takes at least its time.
pub record IsClock {S : Type 0} (machine : Machine S) : Type 0 where
  pub request_later :
      (id hostname : String) (s : S)
      → machine.clock s ≤ machine.clock (machine.post_alias id hostname s).1
  pub sleep_later : (ms : ℕ) (s : S) → machine.clock s + ms ≤ machine.clock (machine.sleep ms s)

power_pos : (n : ℕ) → 0 < 2 ^ n
power_pos zero = omega arith
power_pos (suc n) = omega (arith, power_pos n)

backoff_pos : (base n : ℕ) → 0 < base → 0 < base * 2 ^ n
backoff_pos zero n h = absurd (omega (arith, h))
backoff_pos (suc base) n h = grind (arith, power_pos n)

min_pos : (a b c : ℕ) → 0 < a → 0 < b → c ≢ 0 → 0 < min a (min b c)
min_pos a b c ha hb hc = ground arith

less_left :
    (deadline now later slept delay fuel : ℕ)
    → now ≤ later
    → later + delay ≤ slept
    → 0 < delay
    → deadline - now < suc fuel
    → deadline - later ≢ 0
    → deadline - slept < fuel
less_left deadline now later slept delay fuel h1 h2 h3 h4 h5 = omega (arith, h1, h2, h3, h4, h5)

-- How a loop for the alias of a host has ended: at that host's address, or with an error that is not retried,
-- or out of time.
abbrev IsEnded : String → Option Ended → Type 0
IsEnded hostname none = ⊥
IsEnded hostname (some (alias_url url)) = url ≡ concat "https://" hostname
IsEnded hostname (some (threw error)) = is_retryable_alias_error error ≡ false
IsEnded hostname (some exhausted) = Unit

-- An address is that of the host.
abbrev IsAnswer : String → AliasAnswer → Type 0
IsAnswer hostname (aliased url) = url ≡ concat "https://" hostname
IsAnswer hostname (fails error) = Unit

alias_answer-IsAnswer :
    (hostname : String) (response : Option AliasResponse)
    → IsAnswer hostname (alias_answer hostname response)
unfolding alias_answer
alias_answer-IsAnswer hostname none = tt
alias_answer-IsAnswer hostname (some response) =
    elim (Bool-cases (response.status == 409 || response.is_ok)) [
      | inl fine ↦ rw fine refl
      | inr bad ↦ rw bad tt
    ]

module _ {S : Type 0} (machine : Machine S) (clock : IsClock machine) (id hostname : String)
    (deadline base max : ℕ) (some_base : 0 < base) (some_max : 0 < max) where
  round-IsEnded :
      (answer : AliasAnswer) (remaining : ℕ) (s' : S) (rest : Option Ended × S)
      → IsAnswer hostname answer
      → (remaining ≢ 0 → IsEnded hostname rest.0)
      → IsEnded hostname
          (elim answer as (λ _. Option Ended × S) [
            | aliased url ↦ (some (alias_url url), s')
            | fails error ↦
                if not (is_retryable_alias_error error)
                then (some (threw error), s')
                else if remaining == 0
                then (some exhausted, s')
                else rest
          ]).0
  round-IsEnded (aliased url) remaining s' rest is h = is
  round-IsEnded (fails error) remaining s' rest is h =
      elim (Bool-cases (is_retryable_alias_error error)) [
        | inr stop ↦ rw stop stop
        | inl again ↦ rw again (elim (Bool-cases (remaining == 0)) [
          | inl over ↦ rw over tt
          | inr left ↦ rw left (h (ground (arith, left)))
        ])
      ]

  retry_from-IsEnded :
      (fuel retries : ℕ) (s : S)
      → deadline - machine.clock s < fuel
      → IsEnded hostname (retry_from machine id hostname deadline base max fuel retries s).0
  unfolding retry_from create_publish_alias
  retry_from-IsEnded zero retries s h = absurd (omega (arith, h))
  retry_from-IsEnded (suc fuel) retries s h =
      let s' = (machine.post_alias id hostname s).1 in
      let left = deadline - machine.clock s' in
      let delay = retry_delay_ms base max retries left in
      round-IsEnded (alias_answer hostname (machine.post_alias id hostname s).0) left s' _
        (alias_answer-IsAnswer hostname (machine.post_alias id hostname s).0)
        (λ some_left. retry_from-IsEnded fuel (suc retries) _ (
          less_left deadline (machine.clock s) (machine.clock s')
            (machine.clock (machine.sleep delay s')) delay fuel (clock.request_later id hostname s)
            (clock.sleep_later delay s')
            (min_pos _ max left (backoff_pos base retries some_base) some_max some_left) h
            some_left))

create_publish_alias_with_retry-IsEnded :
    {S : Type 0} (machine : Machine S) (clock : IsClock machine) (id hostname : String)
    (base max timeout : ℕ) (s : S)
    → 0 < base
    → 0 < max
    → IsEnded hostname (create_publish_alias_with_retry machine id hostname timeout base max s).0
unfolding create_publish_alias_with_retry
create_publish_alias_with_retry-IsEnded machine clock id hostname base max timeout s some_base
      some_max =
    retry_from-IsEnded machine clock id hostname (machine.clock s + timeout) base max some_base
      some_max (suc timeout) 0 s (omega arith)

-- The addresses a publication may be found at.
abbrev pub IsPublished : CreatedDeployment → String → Option PublisherResult → Type 0
IsPublished deployment hostname result =
    (result ≡ some (published_at deployment (concat "https://" hostname)))
    ⊎ (result ≡ some (published_at deployment deployment.deployment_url))

published :
    (deployment : CreatedDeployment) (hostname : String) {S : Type 0} (s : S) (ended : Option Ended)
    → IsEnded hostname ended
    → IsPublished deployment hostname
        (elim (base_url deployment ended) as (λ _. Option PublisherResult × S) [
          | none ↦ (none, s)
          | some url ↦ (some (published_at deployment url), s)
        ]).0
published deployment hostname s none is = absurd is
published deployment hostname s (some (alias_url url)) is =
    inl (ap (λ u. some (published_at deployment u)) is)
published deployment hostname s (some (threw error)) is = inr refl
published deployment hostname s (some exhausted) is = inr refl

-- The publication ends within its fuel, at the address of the alias or of the deployment itself: with
-- a clock that does not go back, a sleep that takes its time, and retries that wait at all.
pub publish_deployment-IsPublished :
    {S : Type 0} (machine : Machine S) (deployment : CreatedDeployment) (hostname : String)
    (deploy_timeout_ms retry_base_ms retry_max_ms : ℕ) (s : S)
    → IsClock machine
    → 0 < retry_base_ms
    → 0 < retry_max_ms
    → IsPublished deployment hostname
        (publish_deployment machine deployment hostname deploy_timeout_ms retry_base_ms retry_max_ms
          s).0
unfolding publish_deployment
publish_deployment-IsPublished machine deployment hostname timeout base max s clock some_base
      some_max =
    published deployment hostname _
      (create_publish_alias_with_retry machine deployment.id hostname timeout base max s).0
      (create_publish_alias_with_retry-IsEnded machine clock deployment.id hostname base max timeout
        s some_base some_max)
