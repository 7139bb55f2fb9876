-- ===== src/CheckRunner.antt =====
-- utils/check-runner.ts: the checks, one after the other, under a time limit each and one for all.
pub mod Reports
pub mod Laws
use governance_seatbelt.Prelude.{
  ℕ, String, Option, none, some, List, [], ◌∷◌, Bool, true, false, ◌+◌, ◌-◌, ◌*◌, ◌/◌, ◌%◌, min,
  ltb, leb, if◌then◌else◌, ◌==◌, nat_eq, string_eq, from_option,
}
use governance_seatbelt.Dict.{Dict, lookup, put}
use governance_seatbelt.Text.{concat, to_decimal}
use governance_seatbelt.Checks.{CheckResult, NamedResult, AllCheckResults}

pub record TimeoutConfig : Type 0 where
  pub global_timeout_ms : ℕ
  pub default_per_check_timeout_ms : ℕ
  pub per_check_timeout_overrides_ms : Option (Dict String ℕ)

pub format_timeout_ms : ℕ → String
format_timeout_ms ms =
    let seconds = (ms + 999) / 1000 in
    let minutes = seconds / 60 in
    let remaining_seconds = seconds % 60 in
    if ltb ms 1000
    then concat (to_decimal ms) "ms"
    else if ltb seconds 60
    then concat (to_decimal seconds) "s"
    else if remaining_seconds == 0
    then concat (to_decimal minutes) "m"
    else concat (to_decimal minutes) (concat "m " (concat (to_decimal remaining_seconds) "s"))

abbrev plain_result : List String → Option String → CheckResult
plain_result errors skipped = record {
  info = [];
  warnings = [];
  errors = errors;
  payload = none;
  skipped = skipped;
  permissions_diff = none;
  storage_changes = none;
}

abbrev pub timeout_skip_result : String → CheckResult
timeout_skip_result reason = plain_result [] (some reason)

abbrev pub exception_result : String → CheckResult
exception_result message = plain_result (message ∷ []) none

-- How `checkProposal` settles: it returns, or it throws an error with a message.
pub data Settled : Type 0 where
  returned : CheckResult → Settled
  rejected : String → Settled

-- An entry of the checks, in the order of `Object.entries`.
pub record Check : Type 0 where
  pub id : String
  pub name : String

-- What the runner is given by the machine: `Date.now()`, and what `Promise.race` answers for a check
-- and a timer of some milliseconds (`none` when the timer is first).
pub record Machine (S : Type 0) : Type 0 where
  pub clock : S → ℕ
  pub race : Check → ℕ → S → Option Settled × S

pub run_check_safely : Check → Settled → CheckResult
run_check_safely check (returned result) = result
run_check_safely check (rejected message) = exception_result (
    concat "Unhandled exception in "
      (concat check.name (concat " (" (concat check.id (concat "): " message)))))

abbrev pub global_reason : TimeoutConfig → String
global_reason config =
    concat "Skipped: global checks timeout of "
      (concat (format_timeout_ms config.global_timeout_ms) " exceeded")

abbrev pub timed_out_reason : ℕ → String → String
timed_out_reason ms kind =
    concat "Timed out after " (concat (format_timeout_ms ms) (concat " (" (concat kind ")")))

abbrev pub put_result : Check → CheckResult → AllCheckResults → AllCheckResults
put_result check result results =
    put check.id (record { name = check.name; result = result }) results

-- The loops over the remaining checks.
pub skip_all : String → AllCheckResults → List Check → AllCheckResults
skip_all reason results [] = results
skip_all reason results (check ∷ checks) =
    skip_all reason (put_result check (timeout_skip_result reason) results) checks

-- `overrides[checkId] ?? config.defaultPerCheckTimeoutMs`
abbrev pub configured_timeout_ms : TimeoutConfig → Check → ℕ
configured_timeout_ms config check =
    from_option config.default_per_check_timeout_ms
      (lookup check.id (from_option [] config.per_check_timeout_overrides_ms))

module _ {S : Type 0} (machine : Machine S) (config : TimeoutConfig) (global_deadline_ms : ℕ) where
  -- The loop, from some check on.
  pub run_from : AllCheckResults → List Check → S → AllCheckResults × S
  run_from results [] s = (results, s)
  run_from results (check ∷ checks) s =
      let remaining_global_ms = global_deadline_ms - machine.clock s in
      let configured_ms = configured_timeout_ms config check in
      let effective_timeout_ms = min configured_ms remaining_global_ms in
      let (settled, s') = machine.race check effective_timeout_ms s in
      let go_on = λ (result : CheckResult). run_from (put_result check result results) checks s' in
      elim (leb global_deadline_ms (machine.clock s)) [
        | true ↦ (skip_all (global_reason config) results (check ∷ checks), s)
        | false ↦ elim settled [
          | some answer ↦ go_on (run_check_safely check answer)
          | none ↦ elim (effective_timeout_ms == remaining_global_ms) [
            | false ↦
                go_on
                  (timeout_skip_result (timed_out_reason effective_timeout_ms "per-check timeout"))
            | true ↦ (
              skip_all (global_reason config)
                  (put_result check
                    (timeout_skip_result
                      (timed_out_reason effective_timeout_ms "global checks timeout"))
                    results)
                  checks,
              s',
            )
          ]
        ]
      ]

pub run_checks_with_timeouts :
    {S : Type 0} → Machine S → TimeoutConfig → List Check → S → AllCheckResults × S
run_checks_with_timeouts machine config checks s =
    run_from machine config (machine.clock s + config.global_timeout_ms) [] checks s
