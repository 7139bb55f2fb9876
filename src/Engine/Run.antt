-- ===== src/Engine/Run.antt =====
-- tenderly-execution-engine.ts, lines 76 to 116 and 373 to 475: a proposal's destination jobs.
pub mod Laws
use governance_seatbelt.Prelude.{
  ℕ, suc, String, Option, none, some, List, [], ◌∷◌, ◌++◌, Bool, true, false, ◌&&◌, ◌||◌, not,
  Result, ok, throw, if◌then◌else◌, from_option, nat_eq, any, map, ◌≡◌, length, ltb, leb, ◌==◌,
}
use governance_seatbelt.Dict.{Dict, lookup, put}
use governance_seatbelt.State.{StateObjects, merge_state_objects}
use governance_seatbelt.Dedupe.{dedupe}
use governance_seatbelt.Chains.{supports_l2_checks}
use governance_seatbelt.CrossChain.{
  Job, JobResult, JobStatus, JobError, unsupported_chain, block_lookup_failed, is_failure,
}
use governance_seatbelt.Exec.{Exec, pure, lift, try_catch, ◌>>=◌}
use governance_seatbelt.Engine.Env.{ExtractionContext, BridgeAdapter, Env}
use governance_seatbelt.Engine.Sorting.{sort}
use governance_seatbelt.Engine.Job.{Outcome, success, failure, job_result, execute_destination_job}

-- `{ extractionIndex, job }`
pub record OrderedJob : Type 0 where
  pub extraction_index : ℕ
  pub job : Job

-- `orderedJobs.push({ extractionIndex, job }); extractionIndex += 1`
unfoldable pub number_from : ℕ → List Job → List OrderedJob
number_from index [] = []
number_from index (job ∷ jobs) =
    record { extraction_index = index; job = job } ∷ number_from (suc index) jobs

abbrev append_jobs : List Job → Result (List Job) → Result (List Job)
append_jobs jobs (ok rest) = ok (jobs ++ rest)
append_jobs jobs (throw e) = throw e

-- All jobs, adapter by adapter.
unfoldable pub extract_all :
    {S : Type 0} → ExtractionContext → List (BridgeAdapter S) → Result (List Job)
extract_all context [] = ok []
extract_all context (adapter ∷ adapters) = elim (adapter.extract_jobs context) [
  | throw e ↦ throw e
  | ok jobs ↦ append_jobs jobs (extract_all context adapters)
]

-- The comparator is not positive: `a.sourceOrder - b.sourceOrder || a.extractionIndex - …`.
unfoldable pub comes_before : OrderedJob → OrderedJob → Bool
comes_before a b =
    if a.job.source_order == b.job.source_order
    then leb a.extraction_index b.extraction_index
    else ltb a.job.source_order b.job.source_order

unfoldable pub order_jobs : List Job → List Job
order_jobs jobs = map (λ o. o.job) (sort comes_before (number_from 0 jobs))

unfoldable pub extract_destination_jobs :
    {S : Type 0} → ExtractionContext → List (BridgeAdapter S) → Result (List Job)
extract_destination_jobs context adapters = elim (extract_all context adapters) [
  | throw e ↦ throw e
  | ok jobs ↦ ok (order_jobs jobs)
]

abbrev pub StatesByChain : Type 0
StatesByChain = Dict ℕ StateObjects

abbrev put_some : ℕ → Option StateObjects → StatesByChain → StatesByChain
put_some chain_id none states = states
put_some chain_id (some state) states = put chain_id state states

-- The parts of the source result that are read, and the options' states.
pub record Source : Type 0 where
  pub status : Bool
  pub context : ExtractionContext
  -- `result.simulationTimestamp ?? result.latestBlock.timestamp`
  pub timestamp : ℕ
  pub governor_address : String
  pub initial_state_by_chain : StatesByChain
  pub derived_state_by_chain : StatesByChain
  pub destination_job_results : List JobResult
  pub destination_state_by_chain : StatesByChain
  pub cross_chain_failure : Bool

-- The three fields that the handler sets.
pub record Handled : Type 0 where
  pub destination_job_results : List JobResult
  pub destination_state_by_chain : StatesByChain
  pub cross_chain_failure : Bool

abbrev pub unrun_result : Job → JobStatus → JobError → JobResult
unrun_result job status error = record {
  chain_id = job.destination_chain_id;
  bridge_type = job.bridge_type;
  job = job;
  status = status;
  step_results = [];
  accumulated_sim = none;
  error = some error;
}

-- `if (status === 'success' && committedState) committedStateByChain[chainId] = committedState`
unfoldable pub commit_outcome : ℕ → Outcome → StatesByChain → StatesByChain
commit_outcome chain_id (success r committed) states = put_some chain_id committed states
commit_outcome chain_id (failure r) states = states

module _ {S : Type 0} (env : Env S) (source : Source) where
  -- The loop of `initializeCommittedStateByChain`.
  unfoldable pub initialize_from : StatesByChain → List ℕ → Result StatesByChain
  initialize_from states [] = ok states
  initialize_from states (chain_id ∷ chain_ids) =
      elim (merge_state_objects env.get_address (lookup chain_id source.initial_state_by_chain)
        (lookup chain_id source.derived_state_by_chain)) [
          | throw e ↦ throw e
          | ok committed ↦ initialize_from (put_some chain_id committed states) chain_ids
        ]

  unfoldable pub initialize_committed_state_by_chain : List Job → Result StatesByChain
  initialize_committed_state_by_chain jobs =
      initialize_from [] (dedupe (map (λ job. job.destination_chain_id) jobs))

  -- A job on a known block of a supported chain.
  unfoldable pub run_job_at : Job → ℕ → StatesByChain → Exec S Outcome
  run_job_at job block_number states = do
    balance_addresses ←
        lift (env.treasury_addresses source.governor_address job.destination_chain_id)
    execute_destination_job env job block_number balance_addresses source.timestamp
        (lookup job.destination_chain_id states)

  -- `blocksByChain.get(chainId)`, or the block search and what it finds
  unfoldable pub find_block_cached : ℕ → Dict ℕ ℕ → Exec S ℕ
  find_block_cached chain_id blocks = elim (lookup chain_id blocks) [
    | some block_number ↦ pure block_number
    | none ↦ env.find_block chain_id source.timestamp
  ]

  -- The loop over the jobs; `results` holds those of the jobs before.
  unfoldable pub run_jobs :
      Dict ℕ ℕ → StatesByChain → List JobResult → List Job → Exec S (List JobResult × StatesByChain)
  run_jobs blocks states results [] = pure (results, states)
  run_jobs blocks states results (job ∷ jobs) = elim (supports_l2_checks job.destination_chain_id) [
    | false ↦
        run_jobs blocks states
          (results
            ++ unrun_result job JobStatus.skipped (unsupported_chain job.destination_chain_id) ∷ [])
          jobs
    | true ↦
        try_catch (find_block_cached job.destination_chain_id blocks)
          (λ block_number. run_job_at job block_number states >>= λ outcome.
            run_jobs (put job.destination_chain_id block_number blocks)
              (commit_outcome job.destination_chain_id outcome states)
              (results ++ job_result outcome ∷ []) jobs)
          (λ e.
            run_jobs blocks states
              (results
                ++ unrun_result job JobStatus.failure (block_lookup_failed job.destination_chain_id)
                  ∷ [])
              jobs)
  ]

  abbrev pub unchanged : Handled
  unchanged = record {
    destination_job_results = source.destination_job_results;
    destination_state_by_chain = source.destination_state_by_chain;
    cross_chain_failure = source.cross_chain_failure;
  }

  -- `!targets?.length || !calldatas?.length`
  abbrev pub has_no_calls : Bool
  has_no_calls = length source.context.targets == 0 || length source.context.calldatas == 0

  unfoldable pub run_extracted : List Job → Exec S Handled
  run_extracted [] = pure unchanged
  run_extracted (job ∷ jobs) = do
    states ← lift (initialize_committed_state_by_chain (job ∷ jobs))
    (results, committed) ← run_jobs [] states [] (job ∷ jobs)
    pure (record {
      destination_job_results = results;
      destination_state_by_chain = committed;
      cross_chain_failure = any (λ r. is_failure r.status) results;
    })

  unfoldable pub handle_cross_chain_simulations : Exec S Handled
  handle_cross_chain_simulations = if not source.status || has_no_calls then pure unchanged else (do
    jobs ← lift (extract_destination_jobs source.context env.adapters)
    run_extracted jobs)
