-- ===== src/Tests/LayerZero.antt =====
-- A LayerZero proposal that sets a receiver and then executes a call through it.
use governance_seatbelt.Prelude.{String, none, some, List, [], ◌∷◌, true, ◌≡◌, refl, ok, All}
use governance_seatbelt.Dict.{lookup, put}
use governance_seatbelt.CrossChain.{BridgeType, Job}
use governance_seatbelt.Viem.{Viem, normalize_proposal_target}
use governance_seatbelt.LayerZero.{
  extract_layer_zero_jobs_from_proposal, extract_layer_zero_from, kind_of,
  is_known_layer_zero_sender_target, get_calldata_selector, decode_execute_call, execution_calls,
  calldata_with_signature, some_calls, decode_layer_zero_executor_payload, set_active_receiver,
  decode_layer_zero_remote_address, get_layer_zero_lane_by_remote_chain_id,
}
use governance_seatbelt.LayerZero.Laws.{IsLaneJob, extract_layer_zero_jobs_from_proposal-IsLaneJob}
use governance_seatbelt.LayerZero.Execution.{
  RemoteReader, prepare_layer_zero_execution, layer_zero_trusted_remote_matches,
  read_packed_address,
}
use governance_seatbelt.LayerZero.Execution.Laws.{IsTrusted, prepare_layer_zero_execution-IsTrusted}

-- A calldata is its own selector.
abbrev pub viem : Viem
viem = record {
  get_address = λ s. some s;
  is_hex = λ s. true;
  first_four_bytes = λ s. s;
  to_function_selector = λ s. none;
  send_message_selector = "0xsendMessage";
  set_trusted_remote_selector = "0xsetTrusted";
  execute_selector = "0xexecute0";
  checksum = λ s. s;
  arc_name = "Arc";
  to_lower_case = λ s. s;
  trim = λ s. s;
  decode_send_message = λ s. none;
  decode_set_trusted_remote = λ s. some (106, "0x1111111111111111111111111111111111111111");
  decode_execute = λ s. some (106, "0xpayload");
  decode_payload_with_signatures = λ s. none;
  decode_payload = λ s.
      some (record {
        targets = "0xT" ∷ [];
        values = 0 ∷ [];
        signatures = none;
        calldatas = "0x" ∷ [];
      });
}

abbrev targets : List String
targets =
    "0xeb0BCF27D1Fb4b25e708fBB815c421Aeb51eA9fc" ∷ "0xeb0BCF27D1Fb4b25e708fBB815c421Aeb51eA9fc" ∷ []

abbrev calldatas : List String
calldatas = "0xsetTrusted" ∷ "0xexecute0" ∷ []

abbrev job : Job
job = record {
  bridge_type = BridgeType.layer_zero;
  destination_chain_id = 43114;
  l2_from_address = "0x1111111111111111111111111111111111111111";
  wormhole_chain_id = none;
  layer_zero_trusted_remote = some (record {
    source_remote_chain_id = 101;
    expected_remote_address = "0xeb0BCF27D1Fb4b25e708fBB815c421Aeb51eA9fc";
  });
  source_order = 1;
  calls = record { l2_target_address = "0xT"; l2_input_data = "0x"; l2_value = 0 } ∷ [];
}

extracted_lem : extract_layer_zero_jobs_from_proposal viem targets calldatas ≡ ok (job ∷ [])
unfolding extract_layer_zero_jobs_from_proposal extract_layer_zero_from kind_of
    is_known_layer_zero_sender_target normalize_proposal_target get_calldata_selector
    decode_execute_call execution_calls calldata_with_signature some_calls
    decode_layer_zero_executor_payload set_active_receiver decode_layer_zero_remote_address
    get_layer_zero_lane_by_remote_chain_id lookup put
extracted_lem = refl

extract_layer_zero_jobs_from_proposal-IsLaneJob_example :
    All (IsLaneJob viem 0 [] targets calldatas) (job ∷ [])
extract_layer_zero_jobs_from_proposal-IsLaneJob_example =
    extract_layer_zero_jobs_from_proposal-IsLaneJob viem targets calldatas (job ∷ []) extracted_lem

-- Characters of an address; viem's texts are as they are.
abbrev remote_path : String
remote_path = "0xeb0bcf27d1fb4b25e708fbb815c421aeb51ea9fc1111111111111111111111111111111111111111"

abbrev reader : RemoteReader Unit
reader = record { trusted_remote_lookup = λ address chain block s. (some remote_path, s) }

abbrev lower_job : Job
lower_job = record {
  bridge_type = BridgeType.layer_zero;
  destination_chain_id = 43114;
  l2_from_address = "0x1111111111111111111111111111111111111111";
  wormhole_chain_id = none;
  layer_zero_trusted_remote = some (record {
    source_remote_chain_id = 101;
    expected_remote_address = "0xeb0bcf27d1fb4b25e708fbb815c421aeb51ea9fc";
  });
  source_order = 1;
  calls = [];
}

prepared_lem :
    (prepare_layer_zero_execution viem reader (λ address. 0) (some 7) lower_job tt).0 ≡ ok []
unfolding prepare_layer_zero_execution layer_zero_trusted_remote_matches read_packed_address
prepared_lem = refl

prepare_layer_zero_execution-IsTrusted_example :
    ([] ≡ lower_job.calls) × IsTrusted viem reader (λ address. 0) (some 7) lower_job tt
prepare_layer_zero_execution-IsTrusted_example =
    prepare_layer_zero_execution-IsTrusted viem reader (λ address. 0) (some 7) lower_job tt []
      prepared_lem
