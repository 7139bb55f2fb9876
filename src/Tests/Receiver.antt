-- ===== src/Tests/Receiver.antt =====
-- The preparation of a legacy Wormhole receiver, on concrete inputs.
use governance_seatbelt.Prelude.{none, some, [], ◌∷◌, true, ◌≡◌, refl, ok}
use governance_seatbelt.State.{StateObjects}
use governance_seatbelt.State.View.{code, view}
use governance_seatbelt.CrossChain.{BridgeType, Job}
use governance_seatbelt.Viem.{Viem}
use governance_seatbelt.Engine.Env.{ExecutionContext}
use governance_seatbelt.Wormhole.Capabilities.{LaneCapabilities, legacy}
use governance_seatbelt.Wormhole.Receiver.{
  RuntimeState, Codec, get_overridden_wormhole_receiver_sequence,
}
use governance_seatbelt.Wormhole.Execution.{
  World, Rpc, with_core_stub, strip_core_code, resolve_receiver, advance_sequence,
}
use governance_seatbelt.Wormhole.Execution.Laws.{stripped, view-strip_core_code-with_core_stub}
use governance_seatbelt.Wormhole.Execution.Sequence.{resolve_receiver-advance_sequence}

abbrev viem : Viem
viem = record {
  get_address = λ s. some s;
  is_hex = λ s. true;
  first_four_bytes = λ s. "0x0";
  to_function_selector = λ s. none;
  send_message_selector = "0x0";
  set_trusted_remote_selector = "0x1";
  execute_selector = "0x2";
  checksum = λ s. s;
  arc_name = "Arc";
  to_lower_case = λ s. s;
  trim = λ s. s;
  decode_send_message = λ s. none;
  decode_set_trusted_remote = λ s. none;
  decode_execute = λ s. none;
  decode_payload_with_signatures = λ s. none;
  decode_payload = λ s. none;
}

-- Every text is the number five.
abbrev codec : Codec
codec = record {
  big_int = λ s. some 5;
  encode_payload = λ version calls sender chain_id. some "0x";
  encode_envelope = λ timestamp sequence payload. some "0x";
  encode_receive_message = λ message. some "0x";
}

abbrev rpc : Rpc (Unit {0})
rpc = record {
  find_block = λ chain_id timestamp s. (ok 7, s);
  get_storage_at = λ chain_id address slot block s. (ok (some "0x5"), s);
  read_payload_version = λ chain_id receiver block s. (ok "0xv", s);
  read_next_sequence = λ chain_id receiver block s. (ok 5, s);
}

abbrev job : Job
job = record {
  bridge_type = BridgeType.wormhole;
  destination_chain_id = 56;
  l2_from_address = "0xR";
  wormhole_chain_id = some 4;
  layer_zero_trusted_remote = none;
  source_order = 1;
  calls = [];
}

abbrev context : ExecutionContext
context = record { job = job; working_state = none; source_timestamp = 100; block_number = some 7 }

abbrev world : World (Unit {0})
world = record { receivers = []; chain = tt }

abbrev capabilities : LaneCapabilities
capabilities = legacy "0xcore" "0xv" "0x0"

abbrev runtime_state : RuntimeState
runtime_state = record { expected_payload_version = "0xv"; next_sequence = 5 }

abbrev after : World (Unit {0})
after = (resolve_receiver viem codec rpc capabilities context world).1

no_override : get_overridden_wormhole_receiver_sequence codec none "0xR" ≡ ok none
unfolding get_overridden_wormhole_receiver_sequence
no_override = refl

resolve_receiver-advance_sequence_example :
    (resolve_receiver viem codec rpc capabilities context
      (advance_sequence viem codec rpc job runtime_state none world).1).0
    ≡ ok (record { expected_payload_version = "0xv"; next_sequence = 6 })
resolve_receiver-advance_sequence_example =
    resolve_receiver-advance_sequence viem codec rpc job runtime_state none world capabilities
      context refl no_override no_override

abbrev working : StateObjects
working =
    ("0xcore", record { nonce = none; balance = some "5"; code = some "0x60"; storage = none }) ∷ []

view-strip_core_code-with_core_stub_example :
    view code "0xcore" (strip_core_code "0xcore" (with_core_stub "0xcore" "0xstub" (some working)))
    ≡ stripped code "0xcore" "0xcore" working
view-strip_core_code-with_core_stub_example =
    view-strip_core_code-with_core_stub code "0xcore" "0xstub" "0xcore" (some working)
