-- ===== src/Derived/Gate.antt =====
-- utils/derived-state.ts, lines 145 to 262: the gate on a proposal that builds on another.
pub mod Summaries
pub mod Groups
pub mod Laws
use governance_seatbelt.Prelude.{
  ℕ, zero, suc, String, Option, none, some, List, [], ◌∷◌, ◌++◌, Bool, true, false, ◌&&◌, ◌||◌, not,
  if◌then◌else◌, from_option, is_some, any, nat_eq, string_eq, ◌==◌, ◌+◌,
}
use governance_seatbelt.Dict.{Dict, lookup, put, values}
use governance_seatbelt.State.{non_empty}
use governance_seatbelt.Chains.{supports_l2_checks}
use governance_seatbelt.Checks.{NamedResult, AllCheckResults}
use governance_seatbelt.CrossChain.{JobResult, is_success}

-- The texts of `reason`.
pub data Reason : Type 0 where
  source_failed cross_chain_failed source_inconclusive : Reason
  check_failed : String → Reason
  chain_unsupported not_fully_validated checks_missing destination_inconclusive : ℕ → Reason

pub data DependencyOutcome : Type 0 where
  failed inconclusive : Reason → DependencyOutcome
  passed : DependencyOutcome

pub record Summary : Type 0 where
  pub total : ℕ
  pub skipped : ℕ
  pub failed_check_name : Option String

abbrev pub has_errors : NamedResult → Bool
has_errors check = elim check.result.errors [ [] ↦ false | e ∷ es ↦ true ]

abbrev pub is_skipped : NamedResult → Bool
is_skipped check = is_some check.result.skipped

-- The loop of `summarizeChecks`, which returns at the first check with errors.
pub summarize_from : ℕ → ℕ → List NamedResult → Summary
summarize_from total skipped [] = record {
  total = total;
  skipped = skipped;
  failed_check_name = none;
}
summarize_from total skipped (check ∷ checks) =
    let rest =
      summarize_from (suc total) (if is_skipped check then suc skipped else skipped) checks in
    if has_errors check
    then record { total = suc total; skipped = skipped; failed_check_name = some check.name }
    else rest

pub summarize_checks : AllCheckResults → Summary
summarize_checks checks = summarize_from 0 0 (values checks)

-- `total === 0 || skipped === total`
abbrev pub is_inconclusive : Summary → Bool
is_inconclusive s = s.total == 0 || s.skipped == s.total

-- `existing.push(destination)` under the destination's chain
pub group_by_chain : Dict ℕ (List JobResult) → List JobResult → Dict ℕ (List JobResult)
group_by_chain groups [] = groups
group_by_chain groups (d ∷ ds) =
    group_by_chain (put d.chain_id (from_option [] (lookup d.chain_id groups) ++ d ∷ []) groups) ds

-- `sim.status !== 'success' || !sim.accumulatedSim`
abbrev pub not_validated : JobResult → Bool
not_validated d = not (is_success d.status) || not (is_some d.accumulated_sim)

-- The two tests that follow each `summarizeChecks`. An empty name is falsy.
pub judge : Reason → DependencyOutcome → Summary → DependencyOutcome
judge none_ran go_on summary = elim (non_empty summary.failed_check_name) [
  | some name ↦ failed (check_failed name)
  | none ↦ if is_inconclusive summary then inconclusive none_ran else go_on
]

abbrev pub checks_outcome : Reason → DependencyOutcome → AllCheckResults → DependencyOutcome
checks_outcome none_ran go_on checks = judge none_ran go_on (summarize_checks checks)

module _ (destination_checks : Dict ℕ AllCheckResults) where
  -- The loop over `destinationByChain.entries()`.
  pub evaluate_destinations : Dict ℕ (List JobResult) → DependencyOutcome
  evaluate_destinations [] = passed
  evaluate_destinations ((chain_id, sims) ∷ rest) =
      let go_on = evaluate_destinations rest in
      if not (supports_l2_checks chain_id)
      then inconclusive (chain_unsupported chain_id)
      else if any not_validated sims
      then inconclusive (not_fully_validated chain_id)
      else elim (lookup chain_id destination_checks) [
        | none ↦ inconclusive (checks_missing chain_id)
        | some checks ↦ checks_outcome (destination_inconclusive chain_id) go_on checks
      ]

-- The parts of the predecessor's `SimulationResult` that are read.
pub record PredecessorResult : Type 0 where
  pub source_status : Bool
  pub cross_chain_failure : Bool
  pub destination_job_results : List JobResult

pub evaluate_dependency_outcome :
    PredecessorResult → AllCheckResults → Dict ℕ AllCheckResults → DependencyOutcome
evaluate_dependency_outcome result checks destination_checks =
    if not result.source_status
    then failed source_failed
    else if result.cross_chain_failure
    then failed cross_chain_failed
    else checks_outcome source_inconclusive
        (evaluate_destinations destination_checks
          (group_by_chain [] result.destination_job_results))
        checks
