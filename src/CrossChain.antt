-- ===== src/CrossChain.antt =====
-- types.d.ts, lines 271 to 325: cross-chain execution jobs and their results.
use governance_seatbelt.Prelude.{ℕ, String, Option, List, Bool, true, false, Exception}
use governance_seatbelt.Simulation.{Simulation}

pub data BridgeType : Type 0 where
  arbitrum optimism polygon_fx wormhole layer_zero : BridgeType

-- `l2Value` is a decimal text in the source, read by `BigInt` and written by `toString`.
pub record Call : Type 0 where
  pub l2_target_address : String
  pub l2_input_data : String
  pub l2_value : ℕ

pub record TrustedRemote : Type 0 where
  pub source_remote_chain_id : ℕ
  pub expected_remote_address : String

pub record Job : Type 0 where
  pub bridge_type : BridgeType
  pub destination_chain_id : ℕ
  pub l2_from_address : String
  pub wormhole_chain_id : Option ℕ
  pub layer_zero_trusted_remote : Option TrustedRemote
  pub source_order : ℕ
  pub calls : List Call

-- The texts of `error` in results.
pub data JobError : Type 0 where
  -- "Skipping destination job: chain … is not supported by the destination checks."
  unsupported_chain : ℕ → JobError
  -- "RPC block lookup failed on chain …"
  block_lookup_failed : ℕ → JobError
  -- "Destination job setup failed: …"
  setup_failed : Exception → JobError
  -- "Destination job step simulation API call failed: …"
  api_call_failed : Exception → JobError
  -- the reason that the failed simulation reports
  reverted : String → JobError

pub data StepStatus : Type 0 where
  success failure : StepStatus

pub record StepResult : Type 0 where
  pub step_index : ℕ
  pub call : Call
  pub status : StepStatus
  pub sim : Option Simulation
  pub error : Option JobError

pub data JobStatus : Type 0 where
  success failure skipped : JobStatus

pub record JobResult : Type 0 where
  pub chain_id : ℕ
  pub bridge_type : BridgeType
  pub job : Job
  pub status : JobStatus
  pub step_results : List StepResult
  pub accumulated_sim : Option Simulation
  pub error : Option JobError

-- `res.status === 'success'`, `res.status === 'failure'`
abbrev pub is_success : JobStatus → Bool
is_success JobStatus.success = true
is_success JobStatus.failure = false
is_success JobStatus.skipped = false

abbrev pub is_failure : JobStatus → Bool
is_failure JobStatus.failure = true
is_failure JobStatus.success = false
is_failure JobStatus.skipped = false
