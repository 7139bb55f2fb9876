-- ===== src/Wormhole/Lane.antt =====
-- utils/bridges/wormhole-support.ts, lines 8 to 215, and utils/bridges/wormhole-runtime-state.ts:
-- the supported lanes.
use governance_seatbelt.Prelude.{
  ℕ, String, Option, none, some, List, [], ◌∷◌, ◌++◌, if◌then◌else◌, ◌==◌, nat_eq, string_eq, map,
}
use governance_seatbelt.Dedupe.{dedupe}

pub data LaneKey : Type 0 where
  bnb polygon avalanche celo monad tempo arc : LaneKey

pub data ExecutionMode : Type 0 where
  direct receiver_modern receiver_legacy : ExecutionMode

pub record ValidationTargets : Type 0 where
  pub v2_factory : String
  pub v3_factory : Option String
  pub v4_pool_manager : Option String

pub record Lane : Type 0 where
  pub key : LaneKey
  pub chain_name : String
  pub destination_chain_id : ℕ
  pub wormhole_chain_id : ℕ
  pub execution_mode : ExecutionMode
  pub l2_from_address : String
  pub sender_targets : List String
  pub wormhole_receiver_core_address : Option String
  pub legacy_payload_version : Option String
  pub legacy_next_sequence_storage_slot : Option String
  pub validation_targets : ValidationTargets

abbrev pub legacy_bnb_payload_version : String
legacy_bnb_payload_version = "0x5b9c8ce5e2cddf4e51d4563526c39850198bb92458f003423543f7bfae0ffb1b"

abbrev pub legacy_bnb_next_minimum_sequence_slot : String
legacy_bnb_next_minimum_sequence_slot =
    "0x0000000000000000000000000000000000000000000000000000000000000000"

-- `checksum` is viem's `getAddress` on the literals below, all of them addresses, and the name is
-- viem's `arc.name`.
module _ (checksum : String → String) (arc_name : String) where
  abbrev uniswap_wormhole_sender : String
  uniswap_wormhole_sender = checksum "0xf5F4496219F31CDCBa6130B5402873624585615a"

  abbrev v2_only : String → ValidationTargets
  v2_only v2 = record { v2_factory = checksum v2; v3_factory = none; v4_pool_manager = none }

  abbrev three_targets : String → String → String → ValidationTargets
  three_targets v2 v3 v4 = record {
    v2_factory = checksum v2;
    v3_factory = some (checksum v3);
    v4_pool_manager = some (checksum v4);
  }

  abbrev pub arc_lane : Lane
  arc_lane = record {
    key = LaneKey.arc;
    chain_name = arc_name;
    destination_chain_id = 5042;
    wormhole_chain_id = 71;
    execution_mode = receiver_modern;
    l2_from_address = checksum "0xbCA30b5429935205037069cF5b8A165F55d05a75";
    sender_targets = uniswap_wormhole_sender ∷ [];
    wormhole_receiver_core_address = some (checksum "0xC8aD24fC6063c41cB5C12a8e3851AafC3b3CF027");
    legacy_payload_version = none;
    legacy_next_sequence_storage_slot = none;
    validation_targets =
        three_targets "0x89e5DB8B5aA49aA85AC63f691524311AEB649eba"
          "0xf0db7b58379503491d857dB50AC9ece64c653918" "0x8366a39CC670B4001A1121B8F6A443A643e40951";
  }

  abbrev pub bnb_lane : Lane
  bnb_lane = record {
    key = LaneKey.bnb;
    chain_name = "BNB Smart Chain";
    destination_chain_id = 56;
    wormhole_chain_id = 4;
    execution_mode = receiver_legacy;
    l2_from_address = checksum "0x341c1511141022cf8eE20824Ae0fFA3491F1302b";
    sender_targets = uniswap_wormhole_sender ∷ [];
    wormhole_receiver_core_address = some (checksum "0x98f3c9e6E3fAce36bAAd05FE09d375Ef1464288B");
    legacy_payload_version = some legacy_bnb_payload_version;
    legacy_next_sequence_storage_slot = some legacy_bnb_next_minimum_sequence_slot;
    validation_targets = v2_only "0x8909Dc15e40173Ff4699343b6eB8132c65e18eC6";
  }

  abbrev pub polygon_lane : Lane
  polygon_lane = record {
    key = LaneKey.polygon;
    chain_name = "Polygon";
    destination_chain_id = 137;
    wormhole_chain_id = 5;
    execution_mode = direct;
    l2_from_address = checksum "0x8a1B966aC46F42275860f905dbC75EfBfDC12374";
    sender_targets = uniswap_wormhole_sender ∷ [];
    wormhole_receiver_core_address = none;
    legacy_payload_version = none;
    legacy_next_sequence_storage_slot = none;
    validation_targets = v2_only "0x9e5A52f57b3038F1B8EeE45F28b3C1967e22799C";
  }

  abbrev pub avalanche_lane : Lane
  avalanche_lane = record {
    key = LaneKey.avalanche;
    chain_name = "Avalanche";
    destination_chain_id = 43114;
    wormhole_chain_id = 6;
    execution_mode = direct;
    l2_from_address = checksum "0xeb0BCF27D1Fb4b25e708fBB815c421Aeb51eA9fc";
    sender_targets = uniswap_wormhole_sender ∷ [];
    wormhole_receiver_core_address = none;
    legacy_payload_version = none;
    legacy_next_sequence_storage_slot = none;
    validation_targets = v2_only "0x9e5A52f57b3038F1B8EeE45F28b3C1967e22799C";
  }

  abbrev pub celo_lane : Lane
  celo_lane = record {
    key = LaneKey.celo;
    chain_name = "Celo";
    destination_chain_id = 42220;
    wormhole_chain_id = 14;
    execution_mode = receiver_modern;
    l2_from_address = checksum "0x0Eb863541278308c3A64F8E908BC646e27BFD071";
    sender_targets = uniswap_wormhole_sender ∷ [];
    wormhole_receiver_core_address = some (checksum "0xa321448d90d4e5b0A732867c18eA198e75CAC48E");
    legacy_payload_version = none;
    legacy_next_sequence_storage_slot = none;
    validation_targets =
        three_targets "0x79a530c8e2fA8748B7B40dd3629C0520c2cCf03f"
          "0xAfE208a311B21f13EF87E33A90049fC17A7acDEc" "0x288dc841A52FCA2707c6947B3A777c5E56cd87BC";
  }

  abbrev pub monad_lane : Lane
  monad_lane = record {
    key = LaneKey.monad;
    chain_name = "Monad";
    destination_chain_id = 143;
    wormhole_chain_id = 48;
    execution_mode = receiver_modern;
    l2_from_address = checksum "0xe783de89a7f0408687f051e3e6d0beb62719ebad";
    sender_targets = uniswap_wormhole_sender ∷ [];
    wormhole_receiver_core_address = some (checksum "0x194B123c5E96B9B2e49763619985790Dc241CAC0");
    legacy_payload_version = none;
    legacy_next_sequence_storage_slot = none;
    validation_targets =
        three_targets "0x182a927119d56008d921126764bf884221b10f59"
          "0x204faca1764b154221e35c0d20abb3c525710498" "0x188d586ddcf52439676ca21a244753fa19f9ea8e";
  }

  abbrev pub tempo_lane : Lane
  tempo_lane = record {
    key = LaneKey.tempo;
    chain_name = "Tempo Mainnet";
    destination_chain_id = 4217;
    wormhole_chain_id = 68;
    execution_mode = receiver_modern;
    l2_from_address = checksum "0xCFB43dC56B55bE9611deD8384201cECf06A9811b";
    sender_targets = uniswap_wormhole_sender ∷ [];
    wormhole_receiver_core_address = some (checksum "0xbebdb6C8ddC678FfA9f8748f85C815C556Dd8ac6");
    legacy_payload_version = none;
    legacy_next_sequence_storage_slot = none;
    validation_targets =
        three_targets "0xf9EC577a4E45B5278BB7Cf60FCBc20c3acAef68f"
          "0x24a3d4757E330890A8b8978028c9e58E04611fd6" "0x33620f62C5b9B2086dD6b62F4A297A9f30347029";
  }

  -- `WORMHOLE_LANE_SUPPORT_MATRIX[laneKey]`
  unfoldable pub wormhole_lane_support_matrix : LaneKey → Lane
  wormhole_lane_support_matrix LaneKey.bnb = bnb_lane
  wormhole_lane_support_matrix LaneKey.polygon = polygon_lane
  wormhole_lane_support_matrix LaneKey.avalanche = avalanche_lane
  wormhole_lane_support_matrix LaneKey.celo = celo_lane
  wormhole_lane_support_matrix LaneKey.monad = monad_lane
  wormhole_lane_support_matrix LaneKey.tempo = tempo_lane
  wormhole_lane_support_matrix LaneKey.arc = arc_lane

-- The order of `SUPPORTED_WORMHOLE_LANE_KEYS`, and that of the matrix's own keys.
unfoldable pub supported_wormhole_lane_keys : List LaneKey
supported_wormhole_lane_keys = bnb ∷ polygon ∷ avalanche ∷ celo ∷ monad ∷ tempo ∷ arc ∷ []

abbrev pub matrix_keys : List LaneKey
matrix_keys = arc ∷ bnb ∷ polygon ∷ avalanche ∷ celo ∷ monad ∷ tempo ∷ []

-- `lanes.find((lane) => lane.wormholeChainId === wormholeChainId)`
unfoldable pub find_lane : ℕ → List Lane → Option Lane
find_lane wormhole_chain_id [] = none
find_lane wormhole_chain_id (lane ∷ lanes) =
    if lane.wormhole_chain_id == wormhole_chain_id
    then some lane
    else find_lane wormhole_chain_id lanes

abbrev all_senders : List Lane → List String
all_senders [] = []
all_senders (lane ∷ lanes) = lane.sender_targets ++ all_senders lanes

module _ (checksum : String → String) (arc_name : String) where
  abbrev pub supported_lanes : List Lane
  supported_lanes =
      map (wormhole_lane_support_matrix checksum arc_name) supported_wormhole_lane_keys

  unfoldable pub get_wormhole_lane_by_chain_id : ℕ → Option Lane
  unfolding supported_wormhole_lane_keys
  get_wormhole_lane_by_chain_id wormhole_chain_id = find_lane wormhole_chain_id supported_lanes

  unfoldable pub get_all_supported_wormhole_sender_targets : List String
  unfolding supported_wormhole_lane_keys
  get_all_supported_wormhole_sender_targets = dedupe (all_senders supported_lanes)
