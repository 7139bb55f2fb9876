-- ===== src/Wormhole/Receiver.antt =====
-- utils/cross-chain/wormhole-receiver-sim.ts: the call that stands for a delivered message.
use governance_seatbelt.Prelude.{
  ℕ, String, Option, none, some, List, [], ◌∷◌, ◌&&◌, ◌+◌, leb, if◌then◌else◌, ◌==◌, nat_eq,
  string_eq, Eq, eq_iff, from_option, arith, Result, ok, throw, or_throw, ◌>>=◌, external,
  invalid_message_timestamp,
}
use governance_seatbelt.Dict.{lookup}
use governance_seatbelt.State.{StateObjects, storage_of}
use governance_seatbelt.CrossChain.{Call, Job}
use governance_seatbelt.Wormhole.Lane.{legacy_bnb_next_minimum_sequence_slot}

pub record RuntimeState : Type 0 where
  pub expected_payload_version : String
  pub next_sequence : ℕ

-- What is used of viem's encoders and of `BigInt` on texts; `none` where they throw.
pub record Codec : Type 0 where
  pub big_int : String → Option ℕ
  -- the version, the calls, the sender and the Wormhole chain id
  pub encode_payload : String → List Call → String → ℕ → Option String
  -- the timestamp, the sequence and the payload
  pub encode_envelope : ℕ → ℕ → String → Option String
  pub encode_receive_message : String → Option String

-- `${destinationChainId}:${receiverAddress.toLowerCase()}`
pub record ReceiverKey : Type 0 where
  pub chain_id : ℕ
  pub receiver : String

instance pub key_eq : Eq ReceiverKey
key_eq = record {
  beq = λ j k. j.chain_id == k.chain_id && j.receiver == k.receiver;
  beq_iff = λ j k. ground (arith, eq_iff j.chain_id k.chain_id, eq_iff j.receiver k.receiver);
}

pub get_wormhole_message_timestamp : ℕ → Result ℕ
get_wormhole_message_timestamp source_timestamp =
    if leb source_timestamp 0xffffffff
    then ok source_timestamp
    else throw (invalid_message_timestamp source_timestamp)

abbrev total_value : List Call → ℕ
total_value [] = 0
total_value (call ∷ calls) = call.l2_value + total_value calls

module _ (codec : Codec) where
  -- The sequence that the working state has for a receiver, if it has one.
  unfoldable pub get_overridden_wormhole_receiver_sequence :
      Option StateObjects → String → Result (Option ℕ)
  get_overridden_wormhole_receiver_sequence none receiver = ok none
  get_overridden_wormhole_receiver_sequence (some working) receiver =
      elim (lookup receiver working) [
        | none ↦ ok none
        | some account ↦ elim (lookup legacy_bnb_next_minimum_sequence_slot (storage_of account)) [
          | none ↦ ok none
          | some sequence ↦ elim (codec.big_int sequence) [
            | none ↦ throw (external "BigInt")
            | some n ↦ ok (some n)
          ]
        ]
      ]

  pub build_wormhole_receiver_simulation_call : Job → RuntimeState → ℕ → Result Call
  build_wormhole_receiver_simulation_call job runtime_state source_timestamp = do
    payload ← or_throw (external "encodeAbiParameters") (
        codec.encode_payload runtime_state.expected_payload_version job.calls job.l2_from_address
          (from_option 0 job.wormhole_chain_id))
    timestamp ← get_wormhole_message_timestamp source_timestamp
    message ←
        or_throw (external "encodeAbiParameters")
          (codec.encode_envelope timestamp runtime_state.next_sequence payload)
    input ← or_throw (external "encodeFunctionData") (codec.encode_receive_message message)
    ok (record {
      l2_target_address = job.l2_from_address;
      l2_input_data = input;
      l2_value = total_value job.calls;
    })
