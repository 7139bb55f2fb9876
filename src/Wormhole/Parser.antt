-- ===== src/Wormhole/Parser.antt =====
-- utils/bridges/wormhole.ts, lines 44 to 209: the destination jobs of a proposal's Wormhole calls.
pub mod Laws
use governance_seatbelt.Prelude.{
  ℕ, suc, String, Option, none, some, List, [], ◌∷◌, Bool, true, false, ◌&&◌, not, ◌==◌, nat_eq,
  string_eq, if◌then◌else◌, map, length, Result, ok, throw, unsupported_wormhole_call,
}
use governance_seatbelt.Dedupe.{has}
use governance_seatbelt.CrossChain.{BridgeType, Call, Job}
use governance_seatbelt.Viem.{Viem, SendMessage, has_selector, normalize_proposal_target}
use governance_seatbelt.Wormhole.Lane.{
  Lane, get_wormhole_lane_by_chain_id, get_all_supported_wormhole_sender_targets,
}

pub record Batch : Type 0 where
  pub destination_chain_id : ℕ
  pub l2_from_address : String
  pub wormhole_chain_id : ℕ
  pub calls : List Call

pub data BatchDecodeResult : Type 0 where
  supported : Batch → BatchDecodeResult
  unsupported : ℕ → BatchDecodeResult

-- `jobs.push(job)`, and the rest of the loop
abbrev pub cons_job : Job → Result (List Job) → Result (List Job)
cons_job job (ok jobs) = ok (job ∷ jobs)
cons_job job (throw e) = throw e

module _ (viem : Viem) where
  unfoldable pub known_sender_targets : List String
  known_sender_targets =
      map viem.to_lower_case (get_all_supported_wormhole_sender_targets viem.checksum viem.arc_name)

  unfoldable pub is_known_target : String → Bool
  unfolding known_sender_targets
  is_known_target target = elim (normalize_proposal_target viem target) [
    | none ↦ false
    | some normalized ↦ not (normalized == "") && has normalized known_sender_targets
  ]

  unfoldable pub is_known_wormhole_proposal_call : String → String → Bool
  unfolding is_known_target
  is_known_wormhole_proposal_call target calldata =
      has_selector viem calldata
      && is_known_target target
      && viem.first_four_bytes calldata == viem.send_message_selector

  -- `none` where `getAddress` throws. The elements that the loop skips are those whose data is no hex
  -- text, and those without a value or data.
  unfoldable pub to_wormhole_batch_calls : List String → List ℕ → List String → Option (List Call)
  to_wormhole_batch_calls (target ∷ targets) (value ∷ values) (calldata ∷ datas) =
      let rest = to_wormhole_batch_calls targets values datas in
      elim (viem.is_hex calldata) [
        | false ↦ rest
        | true ↦ elim (viem.get_address target) [
          | none ↦ none
          | some address ↦ elim rest [
            | none ↦ none
            | some calls ↦ some (
                record { l2_target_address = address; l2_input_data = calldata; l2_value = value }
                ∷ calls)
          ]
        ]
      ]
  to_wormhole_batch_calls _ _ _ = some []

  abbrev has_matching_lengths : SendMessage → Bool
  has_matching_lengths message =
      length message.targets == length message.values
      && length message.values == length message.datas

  -- The batch on a lane, with what `toWormholeBatchCalls` returns; a thrown error gives null.
  unfoldable pub decode_on_lane : Lane → SendMessage → Option BatchDecodeResult
  unfolding to_wormhole_batch_calls
  decode_on_lane lane message =
      elim (to_wormhole_batch_calls message.targets message.values message.datas) [
        | none ↦ none
        | some calls ↦ some (
            supported (record {
              destination_chain_id = lane.destination_chain_id;
              l2_from_address = lane.l2_from_address;
              wormhole_chain_id = message.chain_id;
              calls = calls;
            }))
      ]

  unfoldable pub decode_message : SendMessage → Option BatchDecodeResult
  unfolding decode_on_lane
  decode_message message =
      if has_matching_lengths message
      then (elim (get_wormhole_lane_by_chain_id viem.checksum viem.arc_name message.chain_id) [
        | none ↦ some (unsupported message.chain_id)
        | some lane ↦ decode_on_lane lane message
      ])
      else none

  unfoldable pub try_decode_wormhole_batch : String → Option BatchDecodeResult
  unfolding decode_message
  try_decode_wormhole_batch calldata =
      if viem.is_hex calldata
      then (elim (viem.decode_send_message calldata) [
        | none ↦ none
        | some message ↦ decode_message message
      ])
      else none

  abbrev pub batch_job : ℕ → Batch → Job
  batch_job index batch = record {
    bridge_type = BridgeType.wormhole;
    destination_chain_id = batch.destination_chain_id;
    l2_from_address = batch.l2_from_address;
    wormhole_chain_id = some batch.wormhole_chain_id;
    layer_zero_trusted_remote = none;
    source_order = index;
    calls = batch.calls;
  }

  -- What a call of the proposal is decoded to, if it is one of a known sender.
  unfoldable pub decode_call : String → String → Option BatchDecodeResult
  decode_call target calldata =
      if not (target == "") && is_known_wormhole_proposal_call target calldata
      then try_decode_wormhole_batch calldata
      else none

  -- The loop, from the call of some index on.
  unfoldable pub extract_wormhole_from : ℕ → List String → List String → Result (List Job)
  extract_wormhole_from index [] calldatas = ok []
  extract_wormhole_from index (target ∷ targets) [] = ok []
  extract_wormhole_from index (target ∷ targets) (calldata ∷ calldatas) =
      elim (decode_call target calldata) [
        | none ↦ extract_wormhole_from (suc index) targets calldatas
        | some (unsupported chain_id) ↦ throw (unsupported_wormhole_call chain_id index)
        | some (supported batch) ↦
            cons_job (batch_job index batch) (extract_wormhole_from (suc index) targets calldatas)
      ]

  unfoldable pub extract_wormhole_execution_jobs_from_proposal :
      List String → List String → Result (List Job)
  extract_wormhole_execution_jobs_from_proposal targets calldatas =
      extract_wormhole_from 0 targets calldatas
