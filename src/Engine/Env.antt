-- ===== src/Engine/Env.antt =====
-- What the execution engine uses of the other components: utils/bridges/adapter.ts, the simulation
-- client, the block search and the treasury configuration.
use governance_seatbelt.Prelude.{
  ℕ, String, Option, none, some, List, [], ◌∷◌, Bool, true, false, Result, if◌then◌else◌,
}
use governance_seatbelt.State.{StateObjects}
use governance_seatbelt.Simulation.{Simulation}
use governance_seatbelt.CrossChain.{
  BridgeType, arbitrum, optimism, polygon_fx, wormhole, layer_zero, Call, Job,
}
use governance_seatbelt.Exec.{Exec}

-- `CrossChainProposalExtractionContext`
pub record ExtractionContext : Type 0 where
  pub targets : List String
  pub calldatas : List String
  pub l1_sender : Option String

-- `CrossChainBridgeExecutionContext`; the runtime store is part of the state of `Exec`.
pub record ExecutionContext : Type 0 where
  pub job : Job
  pub working_state : Option StateObjects
  pub source_timestamp : ℕ
  pub block_number : Option ℕ

-- `CrossChainBridgePreparedExecution`, without its choice of what is logged.
pub record PreparedExecution (S : Type 0) : Type 0 where
  pub calls : List Call
  pub simulation_sender : Option String
  pub get_state_objects : Option (Option StateObjects → Result (Option StateObjects))
  pub on_step_success : Option (Option StateObjects → Exec S (Unit {0}))
  pub finalize_committed_state : Option (Option StateObjects → Result (Option StateObjects))

-- `CrossChainBridgeAdapter`
pub record BridgeAdapter (S : Type 0) : Type 0 where
  pub bridge_type : BridgeType
  pub extract_jobs : ExtractionContext → Result (List Job)
  pub prepare_execution : Option (ExecutionContext → Exec S (PreparedExecution S))

-- `TenderlyPayload`, as far as destination steps fill it.
pub record Payload : Type 0 where
  pub block_number : ℕ
  pub network_id : ℕ
  pub sender : String
  pub target : String
  pub input : String
  pub fund_synthetic_sender : Bool
  pub balance_addresses : List String
  pub gas : ℕ
  pub value : ℕ
  pub state_objects : Option StateObjects

-- The engine's collaborators. `S` holds the runtime store and the chains that are asked.
pub record Env (S : Type 0) : Type 0 where
  -- viem's `getAddress`, `none` where it throws
  pub get_address : String → Option String
  pub adapters : List (BridgeAdapter S)
  pub send_simulation : Payload → Exec S Simulation
  -- `findBlockNumberAtOrBeforeTimestamp(chainId, timestamp)`
  pub find_block : ℕ → ℕ → Exec S ℕ
  -- `getTreasuryMovementConfig({ governorAddress, chainId }).treasuryAddresses`
  pub treasury_addresses : String → ℕ → Result (List String)

abbrev pub same_bridge : BridgeType → BridgeType → Bool
same_bridge arbitrum arbitrum = true
same_bridge optimism optimism = true
same_bridge polygon_fx polygon_fx = true
same_bridge wormhole wormhole = true
same_bridge layer_zero layer_zero = true
same_bridge _ _ = false

-- `getCrossChainBridgeAdapter`
unfoldable pub find_adapter :
    {S : Type 0} → BridgeType → List (BridgeAdapter S) → Option (BridgeAdapter S)
find_adapter bridge_type [] = none
find_adapter bridge_type (adapter ∷ adapters) =
    if same_bridge adapter.bridge_type bridge_type
    then some adapter
    else find_adapter bridge_type adapters
