-- ===== src/Tests/Engine.antt =====
-- A run of one destination job on Optimism.
use governance_seatbelt.Prelude.{
  ℕ, Option, none, some, [], ◌∷◌, true, false, ◌≡◌, refl, ok, throw, Result, ◌==◌, nat_eq,
  filter_by, subst, ok-injective,
}
use governance_seatbelt.Dict.{lookup, put}
use governance_seatbelt.Dedupe.{dedupe, dedupe_from}
use governance_seatbelt.Chains.{supports_l2_checks, chain_capabilities}
use governance_seatbelt.State.{
  StateObjects, merge_state_objects, normalize_state_objects, normalize_from, merge_normalized,
  merge_from,
}
use governance_seatbelt.Simulation.{Simulation}
use governance_seatbelt.Derived.Extract.{
  extract_state_overrides, extract_from, add_diffs, update_accounts,
}
use governance_seatbelt.CrossChain.{BridgeType, Job, JobError}
use governance_seatbelt.Engine.Env.{PreparedExecution, BridgeAdapter, Env, find_adapter}
use governance_seatbelt.Engine.Sorting.{insert, sort}
use governance_seatbelt.Engine.Job.{
  Outcome, failure, failed_result, build_payload, payload_state, simulate_destination_call,
  commit_step, finalize_state, run_steps, prepare, execute_destination_job,
}
use governance_seatbelt.Engine.Job.Account.{IsAccountOf, execute_destination_job-IsAccountOf}
use governance_seatbelt.Engine.Job.Total.{Finalizes, execute_destination_job_total}
use governance_seatbelt.Engine.Ordering.{IsOrdered, order_jobs_lem}
use governance_seatbelt.Engine.Run.{
  Source, Handled, number_from, comes_before, order_jobs, extract_all, extract_destination_jobs,
  initialize_from, initialize_committed_state_by_chain, run_job_at, find_block_cached, run_jobs,
  run_extracted, handle_cross_chain_simulations, commit_outcome, unchanged,
}
use governance_seatbelt.Engine.Run.Laws.{IsHandled, handle_cross_chain_simulations-IsHandled}

abbrev job : Job
job = record {
  bridge_type = BridgeType.optimism;
  destination_chain_id = 10;
  l2_from_address = "0xA";
  wormhole_chain_id = none;
  layer_zero_trusted_remote = none;
  source_order = 0;
  calls = record { l2_target_address = "0xB"; l2_input_data = "0x"; l2_value = 0 } ∷ [];
}

abbrev simulation : Simulation
simulation = record {
  id = "1";
  block_number = 7;
  status = true;
  post_state = none;
  contracts = none;
  state_diff = none;
  call_trace_reason = none;
  stack_trace = none;
}

abbrev adapter : BridgeAdapter (Unit {0})
adapter = record {
  bridge_type = BridgeType.optimism;
  extract_jobs = λ context. ok (job ∷ []);
  prepare_execution = none;
}

abbrev env : Env (Unit {0})
env = record {
  get_address = λ a. some a;
  adapters = adapter ∷ [];
  send_simulation = λ payload s. (ok simulation, s);
  find_block = λ chain_id timestamp s. (ok 7, s);
  treasury_addresses = λ governor chain_id. ok [];
}

abbrev source : Source
source = record {
  status = true;
  context = record { targets = "0xB" ∷ []; calldatas = "0x" ∷ []; l1_sender = none };
  timestamp = 100;
  governor_address = "0xG";
  initial_state_by_chain = [];
  derived_state_by_chain = [];
  destination_job_results = [];
  destination_state_by_chain = [];
  cross_chain_failure = false;
}

abbrev or_unchanged : Result Handled → Handled
or_unchanged (ok out) = out
or_unchanged (throw e) = unchanged env source

abbrev handled : Handled
handled = or_unchanged (handle_cross_chain_simulations env source tt).0

handled_lem : handle_cross_chain_simulations env source tt ≡ (ok handled, tt)
unfolding handle_cross_chain_simulations extract_destination_jobs extract_all order_jobs number_from
    sort insert comes_before run_extracted initialize_committed_state_by_chain initialize_from
    dedupe dedupe_from merge_state_objects normalize_state_objects normalize_from merge_normalized
    merge_from run_jobs supports_l2_checks chain_capabilities lookup put find_block_cached
    run_job_at execute_destination_job prepare find_adapter run_steps simulate_destination_call
    build_payload payload_state commit_step extract_state_overrides extract_from add_diffs
    update_accounts finalize_state commit_outcome
handled_lem = refl

handle_cross_chain_simulations-IsHandled_example : IsHandled env source handled
handle_cross_chain_simulations-IsHandled_example =
    handle_cross_chain_simulations-IsHandled env source tt tt handled handled_lem

-- The run stops in the preparation if no outcome is found.
abbrev or_stopped : Result Outcome → Outcome
or_stopped (ok o) = o
or_stopped (throw e) = failure (failed_result env job 7 [] [] (JobError.setup_failed e))

abbrev outcome : Outcome
outcome = or_stopped (execute_destination_job env job 7 [] 100 none tt).0

outcome_lem : execute_destination_job env job 7 [] 100 none tt ≡ (ok outcome, tt)
unfolding merge_state_objects normalize_state_objects normalize_from merge_normalized merge_from
    execute_destination_job prepare find_adapter run_steps simulate_destination_call build_payload
    payload_state commit_step extract_state_overrides extract_from add_diffs update_accounts
    finalize_state
outcome_lem = refl

execute_destination_job-IsAccountOf_example : IsAccountOf env job 7 [] 100 none tt outcome
execute_destination_job-IsAccountOf_example =
    execute_destination_job-IsAccountOf env job 7 [] 100 none tt tt outcome outcome_lem

finalizes :
    (s : Unit {0}) (execution : PreparedExecution (Unit {0})) (timestamp : ℕ)
    (working : Option StateObjects)
    → (prepare env job 7 [] timestamp working s).0 ≡ ok execution
    → Finalizes env job 7 [] execution
unfolding prepare find_adapter finalize_state
finalizes s execution timestamp working h =
    subst (Finalizes env job 7 []) (ok-injective h) (λ w. (w, refl))

execute_destination_job_total_example :
    (o : Outcome) × ((execute_destination_job env job 7 [] 100 none tt).0 ≡ ok o)
execute_destination_job_total_example =
    execute_destination_job_total env job 7 [] finalizes 100 none tt tt

abbrev later_job : Job
later_job = record job { source_order = 1 }

order_jobs_lem_example :
    IsOrdered (order_jobs (later_job ∷ job ∷ []))
    × ((n : ℕ)
        → filter_by (λ j. j.source_order == n) (order_jobs (later_job ∷ job ∷ []))
          ≡ filter_by (λ j. j.source_order == n) (later_job ∷ job ∷ []))
order_jobs_lem_example = order_jobs_lem (later_job ∷ job ∷ [])
