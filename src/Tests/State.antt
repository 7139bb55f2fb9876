-- ===== src/Tests/State.antt =====
-- State overrides, their extraction and the gate, on concrete inputs.
use governance_seatbelt.Prelude.{
  if◌then◌else◌, String, Option, none, some, List, [], ◌∷◌, true, false, ◌≡◌, ◌≢◌, refl, ◌↔◌, inl,
  inr, ok, or_else, All, string_eq, ℕ, ◌==◌, eq_iff, arith, nat_eq,
}
use governance_seatbelt.Dict.{lookup, put, spread, values}
use governance_seatbelt.State.{
  Account, StateObjects, overlay, non_empty, normalize_from, normalize_state_objects, merge_from,
  merge_normalized, merge_state_objects,
}
use governance_seatbelt.State.View.{balance, slot, view, last_write}
use governance_seatbelt.State.Merge.{AllValid}
use governance_seatbelt.State.Laws.{view-merge_state_objects, merge_state_objects_iff}
use governance_seatbelt.Simulation.{Simulation}
use governance_seatbelt.Derived.Extract.{
  note_write, update_accounts, add_diffs, extract_from, extract_state_overrides,
}
use governance_seatbelt.Derived.Extract.Laws.{view-extract_state_overrides, reported}
use governance_seatbelt.Checks.{CheckResult, AllCheckResults}
use governance_seatbelt.Derived.Gate.{
  Reason, passed, failed, PredecessorResult, evaluate_dependency_outcome,
}
use governance_seatbelt.Derived.Gate.Summaries.{AreHealthy}
use governance_seatbelt.Derived.Gate.Groups.{IsResultValid}
use governance_seatbelt.Derived.Gate.Laws.{
  IsChainChecked, evaluate_dependency_outcome-eq-passed_iff, evaluate_dependency_outcome-failed,
}

-- Lower-case addresses are spelled in upper case.
abbrev get_address : String → Option String
get_address a = if a == "0xa" then some "0xA" else (if a == "0xA" then some "0xA" else none)

abbrev account : Option String → Account
account value = record {
  nonce = none;
  balance = value;
  code = none;
  storage = some (("0x0", "0x1") ∷ []);
}

abbrev base : Option StateObjects
base = some (("0xA", account (some "5")) ∷ [])

abbrev overrides : Option StateObjects
overrides = some (("0xa", account (some "7")) ∷ [])

abbrev merged : StateObjects
merged =
    (
      "0xA",
      record {
        nonce = none;
        balance = some "7";
        code = none;
        storage = some (("0x0", "0x1") ∷ []);
      },
    )
    ∷ []

merged_lem : merge_state_objects get_address base overrides ≡ ok (some merged)
unfolding merge_state_objects normalize_state_objects normalize_from merge_normalized merge_from
    overlay non_empty lookup put spread
merged_lem = refl

view-merge_state_objects_example :
    view balance "0xA" merged
    ≡ or_else
        (last_write get_address balance "0xA" (("0xa", account (some "7")) ∷ []))
        (last_write get_address balance "0xA" (("0xA", account (some "5")) ∷ []))
unfolding lookup
view-merge_state_objects_example =
    view-merge_state_objects get_address balance "0xA" base overrides {m = some merged}
      ((refl, tt), tt) ((refl, tt), tt) merged_lem

merge_state_objects_iff_example :
    ((m : Option StateObjects) × (merge_state_objects get_address base overrides ≡ ok m)) ↔ (
      AllValid get_address (("0xA", account (some "5")) ∷ [])
      × AllValid get_address (("0xa", account (some "7")) ∷ []))
merge_state_objects_iff_example = merge_state_objects_iff get_address base overrides

abbrev simulation : Simulation
simulation = record {
  id = "1";
  block_number = 7;
  status = true;
  post_state = none;
  contracts = none;
  state_diff = some (
      record {
        raw = some (record { address = "0xa"; key = "0x0"; original = "0x1"; dirty = "0x2" } ∷ []);
      }
      ∷ []);
  call_trace_reason = none;
  stack_trace = none;
}

abbrev extracted : StateObjects
extracted =
    (
      "0xA",
      record { nonce = none; balance = none; code = none; storage = some (("0x0", "0x2") ∷ []) },
    )
    ∷ []

extracted_lem : extract_state_overrides get_address simulation ≡ ok extracted
unfolding extract_state_overrides extract_from add_diffs update_accounts note_write lookup put
extracted_lem = refl

view-extract_state_overrides_example :
    view (slot "0x0") "0xA" extracted ≡ reported get_address (slot "0x0") "0xA" none simulation
view-extract_state_overrides_example =
    view-extract_state_overrides get_address (slot "0x0") "0xA" simulation {s = extracted} tt
      extracted_lem

abbrev check_result : List String → CheckResult
check_result errors = record {
  info = [];
  warnings = [];
  errors = errors;
  payload = none;
  skipped = none;
  permissions_diff = none;
  storage_changes = none;
}

abbrev checks_with : List String → AllCheckResults
checks_with errors = ("checkLogs", record { name = "Logs"; result = check_result errors }) ∷ []

abbrev predecessor : PredecessorResult
predecessor = record {
  source_status = true;
  cross_chain_failure = false;
  destination_job_results = [];
}

differs : (a b : String) → (a == b) ≡ false → a ≢ b
differs a b h = ground (arith, eq_iff a b)

none_checked : (c : ℕ) (checks : AllCheckResults) → lookup c [] ≡ some checks → ⊥
unfolding lookup
none_checked c checks h = cc

evaluate_dependency_outcome-eq-passed_iff_example :
    (evaluate_dependency_outcome predecessor (checks_with []) [] ≡ passed) ↔ (
      (true ≡ true)
      × (false ≡ false)
      × AreHealthy (values (checks_with []))
      × All (IsResultValid (IsChainChecked [])) [])
evaluate_dependency_outcome-eq-passed_iff_example =
    evaluate_dependency_outcome-eq-passed_iff [] (λ c checks h. absurd (none_checked c checks h))
      predecessor (checks_with []) (differs "Logs" "" refl, tt)

evaluate_dependency_outcome-failed_example :
    (why : Reason) × (evaluate_dependency_outcome predecessor (checks_with ("reverted" ∷ [])) []
      ≡ failed why)
evaluate_dependency_outcome-failed_example =
    evaluate_dependency_outcome-failed predecessor (checks_with ("reverted" ∷ [])) []
      (differs "Logs" "" refl, tt) (inr (inr (inl refl)))
