-- ===== src/Tests/Wormhole.antt =====
-- The block search and the Wormhole components, on concrete inputs.
use governance_seatbelt.Prelude.{
  ℕ, String, none, some, List, [], ◌∷◌, true, ◌≡◌, refl, ◌↔◌, ◌*◌, arith, ok, All, map, nat_eq,
}
use governance_seatbelt.Dedupe.Laws.{IsDeduped}
use governance_seatbelt.Retry.{attempt, with_destination_setup_retry}
use governance_seatbelt.BlockSearch.{Client, find_block_number_at_or_before_timestamp}
use governance_seatbelt.BlockSearch.Laws.{
  IsAnswering, IsLastBlock, find_block_number_at_or_before_timestamp-IsLastBlock,
}
use governance_seatbelt.Viem.{Viem, normalize_proposal_target}
use governance_seatbelt.CrossChain.{BridgeType, Job}
use governance_seatbelt.Dedupe.{dedupe, dedupe_from}
use governance_seatbelt.Wormhole.Lane.{
  Lane, bnb_lane, polygon_lane, wormhole_lane_support_matrix, get_wormhole_lane_by_chain_id,
  supported_wormhole_lane_keys, find_lane, get_all_supported_wormhole_sender_targets,
}
use governance_seatbelt.Wormhole.Matrix.{get_wormhole_support_matrix_issues}
use governance_seatbelt.Wormhole.Matrix.Laws.{
  IsSoundLane, get_wormhole_support_matrix_issues-nil_iff,
}
use governance_seatbelt.Wormhole.Parser.{
  extract_wormhole_from, extract_wormhole_execution_jobs_from_proposal, decode_call,
  is_known_wormhole_proposal_call, is_known_target, known_sender_targets, try_decode_wormhole_batch,
  decode_message, decode_on_lane, to_wormhole_batch_calls,
}
use governance_seatbelt.Wormhole.Parser.Laws.{
  IsExtraction, extract_wormhole_execution_jobs_from_proposal-IsExtraction,
}

-- A chain of ten blocks, twelve seconds apart.
abbrev client : Client (Unit {0})
client = record {
  get_block_number = λ s. (ok 9, s);
  get_block = λ n s. (ok (record { number = n; timestamp = 12 * n }), s);
}

client-IsAnswering : IsAnswering client (λ n. 12 * n) 9
unfolding with_destination_setup_retry attempt
client-IsAnswering = record { number_known = λ s. refl; block_known = λ s n h. refl }

find_block_number_at_or_before_timestamp-IsLastBlock_example :
    (b : ℕ) × ((find_block_number_at_or_before_timestamp client 50 tt).0 ≡ ok b)
    × IsLastBlock (λ n. 12 * n) 9 50 b
find_block_number_at_or_before_timestamp-IsLastBlock_example =
    find_block_number_at_or_before_timestamp-IsLastBlock client (λ n. 12 * n) 9 50
      client-IsAnswering (λ m n h bound. omega arith) tt

abbrev lanes : List Lane
lanes = bnb_lane (λ s. s) "Arc" ∷ polygon_lane (λ s. s) "Arc" ∷ []

get_wormhole_support_matrix_issues-nil_iff_example :
    (get_wormhole_support_matrix_issues (λ s. some s) lanes ≡ []) ↔ (
      All (IsSoundLane (λ s. some s)) lanes
      × IsDeduped (map (λ l. l.wormhole_chain_id) lanes)
      × IsDeduped (map (λ l. l.destination_chain_id) lanes))
get_wormhole_support_matrix_issues-nil_iff_example =
    get_wormhole_support_matrix_issues-nil_iff (λ s. some s) lanes

-- Every text is an address, and every calldata a message to BNB with one call.
abbrev viem : Viem
viem = record {
  get_address = λ s. some s;
  is_hex = λ s. true;
  first_four_bytes = λ s. "0xselector";
  to_function_selector = λ s. none;
  send_message_selector = "0xselector";
  set_trusted_remote_selector = "0x1";
  execute_selector = "0x2";
  checksum = λ s. s;
  arc_name = "Arc";
  to_lower_case = λ s. s;
  trim = λ s. s;
  decode_send_message =
      λ s. some (record { targets = "0xT" ∷ []; values = 0 ∷ []; datas = "0x" ∷ []; chain_id = 4 });
  decode_set_trusted_remote = λ s. none;
  decode_execute = λ s. none;
  decode_payload_with_signatures = λ s. none;
  decode_payload = λ s. none;
}

abbrev targets : List String
targets = "0xother" ∷ "0xf5F4496219F31CDCBa6130B5402873624585615a" ∷ []

abbrev calldatas : List String
calldatas = "0x1234567890" ∷ "0x1234567890" ∷ []

abbrev job : Job
job = record {
  bridge_type = BridgeType.wormhole;
  destination_chain_id = 56;
  l2_from_address = "0x341c1511141022cf8eE20824Ae0fFA3491F1302b";
  wormhole_chain_id = some 4;
  layer_zero_trusted_remote = none;
  source_order = 1;
  calls = record { l2_target_address = "0xT"; l2_input_data = "0x"; l2_value = 0 } ∷ [];
}

extracted_lem : extract_wormhole_execution_jobs_from_proposal viem targets calldatas ≡ ok (job ∷ [])
unfolding extract_wormhole_execution_jobs_from_proposal extract_wormhole_from decode_call
    is_known_wormhole_proposal_call is_known_target known_sender_targets
    get_all_supported_wormhole_sender_targets supported_wormhole_lane_keys
    wormhole_lane_support_matrix normalize_proposal_target dedupe dedupe_from
    try_decode_wormhole_batch decode_message decode_on_lane to_wormhole_batch_calls
    get_wormhole_lane_by_chain_id find_lane
extracted_lem = refl

extract_wormhole_execution_jobs_from_proposal-IsExtraction_example :
    IsExtraction viem 0 targets calldatas (job ∷ [])
extract_wormhole_execution_jobs_from_proposal-IsExtraction_example =
    extract_wormhole_execution_jobs_from_proposal-IsExtraction viem targets calldatas (job ∷ [])
      extracted_lem
