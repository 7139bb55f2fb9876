-- ===== src/LayerZero.antt =====
-- utils/bridges/layerzero.ts: the destination jobs of a proposal's LayerZero calls.
pub mod Receivers
pub mod Laws
pub mod Execution
use Prim.Native.String.{count, slice, len}
use governance_seatbelt.Prelude.{
  ℕ, suc, String, Option, none, some, List, [], ◌∷◌, Bool, true, false, ◌&&◌, ◌||◌, not,
  if◌then◌else◌, ◌==◌, nat_eq, string_eq, length, or_else, from_option, Result, ok, throw, or_throw,
  ◌>>=◌, external, invalid_address, bad_remote_address, malformed_set_trusted_remote,
  malformed_execute, unsupported_remote_chain, undecodable_payload, empty_payload,
  malformed_payload_call,
}
use governance_seatbelt.Dict.{Dict, lookup, put}
use governance_seatbelt.Dedupe.{has}
use governance_seatbelt.Text.{concat}
use governance_seatbelt.CrossChain.{BridgeType, Call, TrustedRemote, Job}
use governance_seatbelt.Viem.{Viem, ExecutorPayload, has_selector, normalize_proposal_target}

pub record Lane : Type 0 where
  pub destination_chain_id : ℕ
  pub layer_zero_remote_chain_id : ℕ
  pub l2_from_address : String
  pub sender_target : String

abbrev pub ethereum_remote_chain_id : ℕ
ethereum_remote_chain_id = 101

abbrev job_list : Job → Result (List Job) → Result (List Job)
job_list job (ok jobs) = ok (job ∷ jobs)
job_list job (throw e) = throw e

-- What a call of the proposal is for.
pub data Kind : Type 0 where
  other set_trusted_remote execute : Kind

module _ (viem : Viem) where
  abbrev omnichain_proposal_sender : String
  omnichain_proposal_sender = viem.checksum "0xeb0BCF27D1Fb4b25e708fBB815c421Aeb51eA9fc"

  abbrev pub avalanche_lane : Lane
  avalanche_lane = record {
    destination_chain_id = 43114;
    layer_zero_remote_chain_id = 106;
    l2_from_address = omnichain_proposal_sender;
    sender_target = omnichain_proposal_sender;
  }

  abbrev pub megaeth_lane : Lane
  megaeth_lane = record {
    destination_chain_id = 4326;
    layer_zero_remote_chain_id = 398;
    l2_from_address = viem.checksum "0x8819b86ddF592c3aaAa6f9ec7cE1A0f99FC4322c";
    sender_target = omnichain_proposal_sender;
  }

  abbrev pub supported_layer_zero_lanes : List Lane
  supported_layer_zero_lanes = avalanche_lane ∷ megaeth_lane ∷ []

  unfoldable pub get_layer_zero_lane_by_remote_chain_id : ℕ → Option Lane
  get_layer_zero_lane_by_remote_chain_id remote_chain_id =
      if 106 == remote_chain_id
      then some avalanche_lane
      else if 398 == remote_chain_id
      then some megaeth_lane
      else none

  unfoldable pub is_known_layer_zero_sender_target : String → Bool
  is_known_layer_zero_sender_target target = elim (normalize_proposal_target viem target) [
    | none ↦ false
    | some normalized ↦ normalized == viem.to_lower_case omnichain_proposal_sender
  ]

  unfoldable pub get_calldata_selector : String → Option String
  get_calldata_selector calldata =
      if has_selector viem calldata then some (viem.first_four_bytes calldata) else none

  unfoldable pub decode_layer_zero_remote_address : String → ℕ → Result String
  decode_layer_zero_remote_address remote index =
      if count remote == 42
      then or_throw (invalid_address remote) (viem.get_address remote)
      else throw (bad_remote_address index)

  abbrev signatures_match : ExecutorPayload → Bool
  signatures_match payload = elim payload.signatures [
    | none ↦ true
    | some signatures ↦ length signatures == length payload.calldatas
  ]

  -- The payload if its lists are of one length.
  abbrev matching : ExecutorPayload → Option ExecutorPayload
  matching payload =
      if length payload.targets == length payload.values
        && length payload.values == length payload.calldatas
        && signatures_match payload
      then some payload
      else none

  -- The form with signatures, or else the direct one; `none` for a malformed payload.
  unfoldable pub decode_layer_zero_executor_payload : String → Option ExecutorPayload
  decode_layer_zero_executor_payload payload = elim (viem.decode_payload_with_signatures payload) [
    | some decoded ↦ matching decoded
    | none ↦ elim (viem.decode_payload payload) [ some decoded ↦ matching decoded | none ↦ none ]
  ]

  -- `${selector}${calldata.slice(2)}`
  unfoldable pub calldata_with_signature : Option String → String → Result String
  calldata_with_signature none calldata = ok calldata
  calldata_with_signature (some signature) calldata =
      let trimmed = viem.trim signature in
      let function_signature =
        if slice trimmed 0 9 == "function " then trimmed else concat "function " trimmed in
      if trimmed == "" then ok calldata else (do
        selector ←
            or_throw (external "toFunctionSelector") (viem.to_function_selector function_signature)
        ok (concat selector (slice calldata 2 (len calldata))))

  abbrev first : Option (List String) → Option String
  first (some (s ∷ ss)) = some s
  first _ = none

  abbrev rest : Option (List String) → Option (List String)
  rest (some (s ∷ ss)) = some ss
  rest _ = none

  -- The loop over `payload.targets`, from some index on.
  unfoldable pub execution_calls :
      ℕ → List String → List ℕ → Option (List String) → List String → Result (List Call)
  execution_calls index [] values signatures calldatas = ok []
  execution_calls index (target ∷ targets) (value ∷ values) signatures (calldata ∷ calldatas) = do
    address ← or_throw (invalid_address target) (viem.get_address target)
    input ← calldata_with_signature (first signatures) calldata
    calls ← execution_calls (suc index) targets values (rest signatures) calldatas
    ok (record { l2_target_address = address; l2_input_data = input; l2_value = value } ∷ calls)
  execution_calls index (target ∷ targets) _ signatures _ = throw (malformed_payload_call index)

  abbrev pub lane_job : ℕ → Dict ℕ String → ℕ → Lane → List Call → Job
  lane_job index active remote_chain_id lane calls = record {
    bridge_type = BridgeType.layer_zero;
    destination_chain_id = lane.destination_chain_id;
    l2_from_address = from_option lane.l2_from_address (lookup remote_chain_id active);
    wormhole_chain_id = none;
    layer_zero_trusted_remote = some (record {
      source_remote_chain_id = ethereum_remote_chain_id;
      expected_remote_address = lane.sender_target;
    });
    source_order = index;
    calls = calls;
  }

  unfoldable pub some_calls : ℕ → ℕ → List Call → Result (List Call)
  some_calls remote_chain_id index [] = throw (empty_payload remote_chain_id index)
  some_calls remote_chain_id index (call ∷ calls) = ok (call ∷ calls)

  -- The lane and the calls of an `execute` call.
  unfoldable pub decode_execute_call : ℕ → ℕ × String → Result (Lane × List Call)
  unfolding some_calls
  decode_execute_call index (remote_chain_id, payload) = do
    lane ←
        or_throw (unsupported_remote_chain remote_chain_id index)
          (get_layer_zero_lane_by_remote_chain_id remote_chain_id)
    decoded ←
        or_throw (undecodable_payload remote_chain_id index)
          (decode_layer_zero_executor_payload payload)
    calls ← execution_calls 0 decoded.targets decoded.values decoded.signatures decoded.calldatas
    given ← some_calls remote_chain_id index calls
    ok (lane, given)

  -- `activeReceiverByRemoteChainId` after a `setTrustedRemoteAddress` call.
  unfoldable pub set_active_receiver : ℕ → ℕ × String → Dict ℕ String → Result (Dict ℕ String)
  set_active_receiver index (remote_chain_id, remote) active =
      elim (get_layer_zero_lane_by_remote_chain_id remote_chain_id) [
        | none ↦ ok active
        | some lane ↦ do
          address ← decode_layer_zero_remote_address remote index
          ok (put remote_chain_id address active)
      ]

  unfoldable pub kind_of : String → String → Kind
  kind_of target calldata =
      if target == "" || calldata == "" || not (is_known_layer_zero_sender_target target)
      then other
      else (elim (get_calldata_selector calldata) [
        | none ↦ other
        | some selector ↦
            if selector == viem.set_trusted_remote_selector
            then set_trusted_remote
            else if selector == viem.execute_selector
            then execute
            else other
      ])

  -- The loop, from the call of some index on.
  unfoldable pub extract_layer_zero_from :
      ℕ → Dict ℕ String → List String → List String → Result (List Job)
  extract_layer_zero_from index active [] calldatas = ok []
  extract_layer_zero_from index active (target ∷ targets) [] = ok []
  extract_layer_zero_from index active (target ∷ targets) (calldata ∷ calldatas) =
      elim (kind_of target calldata) [
        | other ↦ extract_layer_zero_from (suc index) active targets calldatas
        | set_trusted_remote ↦ do
          decoded ←
              or_throw (malformed_set_trusted_remote index)
                (viem.decode_set_trusted_remote calldata)
          next ← set_active_receiver index decoded active
          extract_layer_zero_from (suc index) next targets calldatas
        | execute ↦ do
          decoded ← or_throw (malformed_execute index) (viem.decode_execute calldata)
          (lane, calls) ← decode_execute_call index decoded
          job_list (lane_job index active decoded.0 lane calls)
              (extract_layer_zero_from (suc index) active targets calldatas)
      ]

  unfoldable pub extract_layer_zero_jobs_from_proposal :
      List String → List String → Result (List Job)
  extract_layer_zero_jobs_from_proposal targets calldatas =
      extract_layer_zero_from 0 [] targets calldatas
