-- ===== src/Tests/Checks.antt =====
-- The check runner and the merge of results, on concrete inputs.
use governance_seatbelt.Prelude.{
  ℕ, String, Option, none, some, List, [], ◌∷◌, if◌then◌else◌, ◌≡◌, refl, ◌+◌, ◌≤◌, arith, ◌==◌,
  string_eq,
}
use governance_seatbelt.Dict.{lookup}
use governance_seatbelt.Json.{Json, num, bigint, str, json_eq}
use governance_seatbelt.Checks.{CheckResult, AllCheckResults}
use governance_seatbelt.CheckResults.{merge_check_result, merge_all_check_results}
use governance_seatbelt.CheckResults.Laws.{
  IsMerge, merge_check_result-IsMerge, merged_at, lookup-merge_all_check_results,
}
use governance_seatbelt.CheckRunner.{
  Check, Machine, TimeoutConfig, returned, run_checks_with_timeouts,
}
use governance_seatbelt.CheckRunner.Reports.{Reported}
use governance_seatbelt.CheckRunner.Laws.{
  IsPunctual, run_checks_with_timeouts-Reported, run_checks_with_timeouts-in_time,
}

abbrev result : List String → Option String → CheckResult
result errors skipped = record {
  info = [];
  warnings = [];
  errors = errors;
  payload = none;
  skipped = skipped;
  permissions_diff = none;
  storage_changes = none;
}

-- A clock that every timer moves on; the checks called "slow" never settle.
abbrev machine : Machine ℕ
machine = record {
  clock = λ now. now;
  race = λ check ms now.
      if check.id == "slow" then (none, now + ms) else (some (returned (result [] none)), now);
}

machine-IsPunctual : IsPunctual machine
machine-IsPunctual = record { in_time = λ check ms now. ground arith }

abbrev config : TimeoutConfig
config = record {
  global_timeout_ms = 1_000;
  default_per_check_timeout_ms = 600;
  per_check_timeout_overrides_ms = none;
}

abbrev checks : List Check
checks = record { id = "slow"; name = "Slow" } ∷ record { id = "logs"; name = "Logs" } ∷ []

run_checks_with_timeouts-in_time_example :
    machine.clock (run_checks_with_timeouts machine config checks 5).1 ≤ machine.clock 5 + 1_000
run_checks_with_timeouts-in_time_example =
    run_checks_with_timeouts-in_time machine machine-IsPunctual config checks 5

run_checks_with_timeouts-Reported_example :
    Reported machine config 1_005 5 checks
      (run_checks_with_timeouts machine config checks 5).0
      (run_checks_with_timeouts machine config checks 5).1
run_checks_with_timeouts-Reported_example =
    run_checks_with_timeouts-Reported machine config checks 5 (refl, (refl, tt))

abbrev l1_result : CheckResult
l1_result = result ("a" ∷ []) none

abbrev l2_result : CheckResult
l2_result = result ("b" ∷ "a" ∷ []) (some "no calls")

merge_check_result-IsMerge_example :
    IsMerge (merge_check_result l1_result l2_result) l1_result l2_result
merge_check_result-IsMerge_example = merge_check_result-IsMerge l1_result l2_result

abbrev l1_results : AllCheckResults
l1_results = ("logs", record { name = "Logs"; result = l1_result }) ∷ []

abbrev l2_results : AllCheckResults
l2_results =
    ("logs", record { name = ""; result = l2_result })
    ∷ ("slow", record { name = "Slow"; result = l2_result })
    ∷ []

lookup-merge_all_check_results_example :
    lookup "logs" (merge_all_check_results l1_results l2_results)
    ≡ merged_at (lookup "logs" l1_results) (lookup "logs" l2_results)
unfolding lookup
lookup-merge_all_check_results_example =
    lookup-merge_all_check_results "logs" l1_results l2_results (refl, (refl, tt))

abbrev items : List Json
items = bigint "1" ∷ str "1" ∷ num "1" ∷ []
