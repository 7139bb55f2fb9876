-- ===== src/PolygonFx.antt =====
-- utils/bridges/polygon-fx.ts: the destination jobs of calls to Polygon's FxRoot.
pub mod Laws
use Prim.Native.String.{count}
use governance_seatbelt.Prelude.{
  ℕ, suc, String, Option, none, some, List, [], ◌∷◌, Bool, true, false, ◌&&◌, ◌||◌, ltb, not,
  if◌then◌else◌, ◌==◌, string_eq, Result, ok, throw, or_throw, ◌>>=◌, invalid_address,
}
use governance_seatbelt.CrossChain.{BridgeType, Call, Job}
use governance_seatbelt.Viem.{Viem}

-- The decoder of `sendMessageToChild`, by its receiver and data, and the encoder of `processMessageFromRoot`.
pub record FxCodec : Type 0 where
  pub send_message_selector : String
  pub decode_send_message_to_child : String → Option (String × String)
  pub encode_process_message_from_root : ℕ → String → String → Option String

abbrev polygon_fx_root : Viem → String
polygon_fx_root viem = viem.checksum "0xfe5e5D361b2ad62c541bAb87C45a0B9B018389a2"

abbrev polygon_fx_child : Viem → String
polygon_fx_child viem = viem.checksum "0x8397259c983751DAf40400790063935a11afa28a"

abbrev zero_address : String
zero_address = "0x0000000000000000000000000000000000000000"

abbrev pub fx_job : Viem → ℕ → Call → Job
fx_job viem index call = record {
  bridge_type = BridgeType.polygon_fx;
  destination_chain_id = 137;
  l2_from_address = polygon_fx_child viem;
  wormhole_chain_id = none;
  layer_zero_trusted_remote = none;
  source_order = index;
  calls = call ∷ [];
}

abbrev pub with_job : Viem → ℕ → Option Call → List Job → List Job
with_job viem index none jobs = jobs
with_job viem index (some call) jobs = fx_job viem index call ∷ jobs

module _ (viem : Viem) (codec : FxCodec) where
  abbrev is_root : Option String → Bool
  is_root none = false
  is_root (some address) = viem.to_lower_case address == viem.to_lower_case (polygon_fx_root viem)

  unfoldable pub is_polygon_fx_root_call : String → String → Bool
  is_polygon_fx_root_call target input =
      not (not (viem.is_hex input) || input == "0x" || ltb (count input) 10)
      && is_root (viem.get_address target)
      && viem.first_four_bytes input == codec.send_message_selector

  abbrev call_to : Option String → Option String → Option Call
  call_to (some input) (some receiver) =
      some (record { l2_target_address = receiver; l2_input_data = input; l2_value = 0 })
  call_to _ _ = none

  abbrev decoded_call : ℕ → String → Option (String × String) → Option Call
  decoded_call index root_message_sender none = none
  decoded_call index root_message_sender (some (receiver, message_data)) =
      call_to (codec.encode_process_message_from_root (suc index) root_message_sender message_data)
        (viem.get_address receiver)

  -- The call of a proposal's call; whatever throws on the way is caught, and the call is skipped.
  unfoldable pub polygon_call : String → ℕ → String → String → Option Call
  polygon_call root_message_sender index target input =
      if target == "" || not (is_polygon_fx_root_call target input)
      then none
      else decoded_call index root_message_sender (codec.decode_send_message_to_child input)

  -- The loop, from the call of some index on.
  unfoldable pub jobs_from : String → ℕ → List String → List String → List Job
  jobs_from root_message_sender index [] calldatas = []
  jobs_from root_message_sender index (target ∷ targets) [] = []
  jobs_from root_message_sender index (target ∷ targets) (calldata ∷ calldatas) =
      with_job viem index (polygon_call root_message_sender index target calldata)
        (jobs_from root_message_sender (suc index) targets calldatas)

  abbrev sender_of : Option String → Result String
  sender_of none = ok zero_address
  sender_of (some l1_sender) =
      if l1_sender == ""
      then ok zero_address
      else or_throw (invalid_address l1_sender) (viem.get_address l1_sender)

  pub extract_polygon_fx_l1_l2_jobs_from_proposal :
      List String → List String → Option String → Result (List Job)
  unfolding jobs_from
  extract_polygon_fx_l1_l2_jobs_from_proposal targets calldatas l1_sender = do
    root_message_sender ← sender_of l1_sender
    ok (jobs_from root_message_sender 0 targets calldatas)
