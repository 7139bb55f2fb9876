-- ===== src/Simulation.antt =====
-- `TenderlySimulation` of types.d.ts: the answer to one simulated call, as far as it is read.
use governance_seatbelt.Prelude.{ℕ, String, Option, List, Bool}
use governance_seatbelt.State.{StateObjects}

-- `TenderlyContract`
pub record Contract : Type 0 where
  pub address : String
  pub balance : Option String
  pub deployed_bytecode : Option String

pub record RawElement : Type 0 where
  pub address : String
  pub key : String
  pub original : String
  pub dirty : String

-- An entry of `state_diff`.
pub record StateDiff : Type 0 where
  pub raw : Option (List RawElement)

-- An entry of `stack_trace`.
pub record Frame : Type 0 where
  pub error_reason : Option String
  pub error : Option String

pub record Simulation : Type 0 where
  pub id : String
  pub block_number : ℕ
  pub status : Bool
  pub post_state : Option StateObjects
  pub contracts : Option (List Contract)
  pub state_diff : Option (List StateDiff)
  pub call_trace_reason : Option String
  pub stack_trace : Option (List Frame)
