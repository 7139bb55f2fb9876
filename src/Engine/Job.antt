-- ===== src/Engine/Job.antt =====
-- tenderly-execution-engine.ts, lines 118 to 371: one destination job, step by step.
pub mod Laws
pub mod Total
pub mod Account
use governance_seatbelt.Prelude.{
  ℕ, zero, suc, String, Option, none, some, List, [], ◌∷◌, ◌++◌, Bool, true, false, ◌&&◌, ◌||◌, not,
  Result, ok, throw, if◌then◌else◌, from_option, is_some, or_else, nat_eq, string_eq, ◌==◌,
  Exception, nonzero_receiver_value,
}
use governance_seatbelt.Text.{non_blank}
use governance_seatbelt.State.{StateObjects, merge_state_objects}
use governance_seatbelt.Simulation.{Simulation, Frame}
use governance_seatbelt.Derived.Extract.{extract_state_overrides}
use governance_seatbelt.CrossChain
use governance_seatbelt.CrossChain.{
  Call, Job, JobResult, JobStatus, JobError, setup_failed, api_call_failed, reverted, StepResult,
  StepStatus,
}
use governance_seatbelt.Exec.{Exec, pure, lift, raise, try_catch, ◌>>=◌}
use governance_seatbelt.Engine.Env.{
  ExecutionContext, PreparedExecution, BridgeAdapter, Payload, Env, find_adapter,
}

-- `getAddress('0x…1234')`: no letters, so it is its own checksum.
abbrev pub default_sender : String
default_sender = "0x0000000000000000000000000000000000001234"

abbrev pub block_gas_limit : ℕ
block_gas_limit = 30_000_000

-- `stack_trace?.find(…)`, and then the reason or the error of the frame that is found
stack_reason : List Frame → Option String
stack_reason [] = none
stack_reason (frame ∷ frames) =
    let rest = stack_reason frames in
    let here = or_else (non_blank frame.error_reason) (non_blank frame.error) in
    if is_some here then here else rest

pub get_destination_failure_reason : Simulation → String
unfolding stack_reason non_blank
get_destination_failure_reason sim =
    from_option "Destination job failed (no detailed error returned by RPC)."
      (or_else (non_blank sim.call_trace_reason) (stack_reason (from_option [] sim.stack_trace)))

abbrev pub is_default_sender : Option String → Bool
is_default_sender none = false
is_default_sender (some sender) = sender == default_sender

-- `… ?? workingState`
abbrev pub or_state :
    Option StateObjects → Result (Option StateObjects) → Result (Option StateObjects)
or_state working (ok objects) = ok (or_else objects working)
or_state working (throw e) = throw e

pub data Outcome : Type 0 where
  success : JobResult → Option StateObjects → Outcome
  failure : JobResult → Outcome

abbrev pub job_result : Outcome → JobResult
job_result (success r c) = r
job_result (failure r) = r

module _ {S : Type 0} (env : Env S) (job : Job) (block_number : ℕ)
    (balance_addresses : List String) where
  abbrev pub failed_result : List StepResult → JobError → JobResult
  failed_result steps error = record {
    chain_id = job.destination_chain_id;
    bridge_type = job.bridge_type;
    job = job;
    status = JobStatus.failure;
    step_results = steps;
    accumulated_sim = none;
    error = some error;
  }

  abbrev pub succeeded_result : List StepResult → Option Simulation → JobResult
  succeeded_result steps sim = record {
    chain_id = job.destination_chain_id;
    bridge_type = job.bridge_type;
    job = job;
    status = JobStatus.success;
    step_results = steps;
    accumulated_sim = sim;
    error = none;
  }

  -- `execution.getStateObjects?.(workingState) ?? workingState`
  unfoldable pub payload_state :
      PreparedExecution S → Option StateObjects → Result (Option StateObjects)
  payload_state execution working = elim execution.get_state_objects [
    | none ↦ ok working
    | some get ↦ or_state working (get working)
  ]

  unfoldable pub build_payload : PreparedExecution S → Call → Option StateObjects → Result Payload
  build_payload execution call working =
      if is_default_sender execution.simulation_sender && not (call.l2_value == 0)
      then throw (nonzero_receiver_value call.l2_value)
      else elim (payload_state execution working) [
        | throw e ↦ throw e
        | ok state ↦ ok (record {
          block_number = block_number;
          network_id = job.destination_chain_id;
          sender = from_option job.l2_from_address execution.simulation_sender;
          target = call.l2_target_address;
          input = call.l2_input_data;
          fund_synthetic_sender = is_default_sender execution.simulation_sender;
          balance_addresses = balance_addresses;
          gas = block_gas_limit;
          value = call.l2_value;
          state_objects = state;
        })
      ]

  unfoldable pub simulate_destination_call :
      PreparedExecution S → Call → Option StateObjects → Exec S Simulation
  unfolding build_payload payload_state
  simulate_destination_call execution call working = do
    payload ← lift (build_payload execution call working)
    env.send_simulation payload

  -- What follows a successful simulation: the next working state, and the adapter's callback.
  unfoldable pub commit_step :
      PreparedExecution S → Option StateObjects → Simulation → Exec S (Option StateObjects)
  commit_step execution working sim = do
    overrides ← lift (extract_state_overrides env.get_address sim)
    merged ← lift (merge_state_objects env.get_address working (some overrides))
    let next = or_else merged working
    done ← elim execution.on_step_success [ none ↦ pure tt | some callback ↦ callback next ]
    pure next

  abbrev pub step : ℕ → Call → StepStatus → Option Simulation → Option JobError → StepResult
  step index call status sim error = record {
    step_index = index;
    call = call;
    status = status;
    sim = sim;
    error = error;
  }

  -- `execution.finalizeCommittedState?.(workingState) ?? workingState`
  unfoldable pub finalize_state :
      PreparedExecution S → Option StateObjects → Result (Option StateObjects)
  finalize_state execution working = elim execution.finalize_committed_state [
    | none ↦ ok working
    | some finalize ↦ or_state working (finalize working)
  ]

  -- The two ways in which a step ends the job: a reverted simulation, and a caught exception.
  abbrev pub reverted_step : List StepResult → ℕ → Call → Simulation → Outcome
  reverted_step steps index call sim =
      let why = reverted (get_destination_failure_reason sim) in
      failure
        (failed_result (steps ++ step index call StepStatus.failure (some sim) (some why) ∷ []) why)

  abbrev pub thrown_step : List StepResult → ℕ → Call → Exception → Outcome
  thrown_step steps index call e =
      let why = api_call_failed e in
      failure (failed_result (steps ++ step index call StepStatus.failure none (some why) ∷ []) why)

  -- The loop over `stepCalls`, from step `index` on.
  unfoldable pub run_steps :
      PreparedExecution S
      → ℕ
      → Option StateObjects
      → Option Simulation
      → List StepResult
      → List Call
      → Exec S Outcome
  run_steps execution index working accumulated steps [] = do
    committed ← lift (finalize_state execution working)
    pure (success (succeeded_result steps accumulated) committed)
  run_steps execution index working accumulated steps (call ∷ calls) =
      try_catch (simulate_destination_call execution call working)
        (λ sim.
          let steps' = steps ++ step index call StepStatus.success (some sim) none ∷ [] in
          let go_on =
            try_catch (commit_step execution working sim)
              (λ next. run_steps execution (suc index) next (some sim) steps' calls)
              (λ e. pure (thrown_step steps' index call e)) in
          if not sim.status then pure (reverted_step steps index call sim) else go_on)
        (λ e. pure (thrown_step steps index call e))

  -- `{ calls: job.calls }`
  abbrev pub plain_execution : PreparedExecution S
  plain_execution = record {
    calls = job.calls;
    simulation_sender = none;
    get_state_objects = none;
    on_step_success = none;
    finalize_committed_state = none;
  }

  -- `prepareExecution` of the job's adapter, if it has one
  unfoldable pub prepare : ℕ → Option StateObjects → Exec S (PreparedExecution S)
  prepare source_timestamp working = elim (find_adapter job.bridge_type env.adapters) [
    | none ↦ pure plain_execution
    | some adapter ↦ elim adapter.prepare_execution [
      | none ↦ pure plain_execution
      | some prepare_execution ↦ prepare_execution (record {
        job = job;
        working_state = working;
        source_timestamp = source_timestamp;
        block_number = some block_number;
      })
    ]
  ]

  unfoldable pub execute_destination_job : ℕ → Option StateObjects → Exec S Outcome
  execute_destination_job source_timestamp committed = do
    working ← lift (merge_state_objects env.get_address committed none)
    try_catch (prepare source_timestamp working)
        (λ execution. run_steps execution 0 working none [] execution.calls)
        (λ e. pure (failure (failed_result [] (setup_failed e))))
