-- ===== src/Wormhole/Capabilities.antt =====
-- utils/bridges/wormhole.ts, lines 22 to 36 and 211 to 311: how a lane's destination is simulated.
-- The lanes are those of the matrix; its validation, once per process, is Wormhole/Matrix.
use Prim.Native.String.{count}
use governance_seatbelt.Prelude.{
  Exception, ℕ, String, Option, none, some, Bool, ◌&&◌, nat_eq, ◌==◌, string_eq, Result, ok, throw,
  ◌>>=◌, if◌then◌else◌, unsupported_wormhole_chain, invalid_wormhole_lane,
}
use governance_seatbelt.Viem.{Viem}
use governance_seatbelt.Wormhole.Lane.{Lane, ExecutionMode, get_wormhole_lane_by_chain_id}

pub data LaneCapabilities : Type 0 where
  direct : LaneCapabilities
  modern : String → LaneCapabilities
  -- the receiver core, the payload version and the slot of the next sequence
  legacy : String → String → String → LaneCapabilities

abbrev pub receiver_core_address : LaneCapabilities → Option String
receiver_core_address LaneCapabilities.direct = none
receiver_core_address (modern core) = some core
receiver_core_address (legacy core version slot) = some core

-- A given text, where the code throws on a missing or empty one.
abbrev given : Exception → Option String → Result String
given e none = throw e
given e (some s) = if s == "" then throw e else ok s

module _ (viem : Viem) where
  -- `isHex(value) && value.length === n`
  abbrev pub is_hex_of : ℕ → String → Bool
  is_hex_of n value = viem.is_hex value && count value == n

  pub assert_valid_wormhole_lane_capabilities :
      Option ℕ → LaneCapabilities → Result LaneCapabilities
  assert_valid_wormhole_lane_capabilities chain_id LaneCapabilities.direct =
      ok LaneCapabilities.direct
  assert_valid_wormhole_lane_capabilities chain_id (modern core) =
      if is_hex_of 42 core then ok (modern core) else throw (invalid_wormhole_lane chain_id)
  assert_valid_wormhole_lane_capabilities chain_id (legacy core version slot) =
      if is_hex_of 42 core && is_hex_of 66 version && is_hex_of 66 slot
      then ok (legacy core version slot)
      else throw (invalid_wormhole_lane chain_id)

  pub lane_capabilities : ℕ → Lane → Result LaneCapabilities
  lane_capabilities chain_id lane = elim lane.execution_mode [
    | ExecutionMode.direct ↦
        assert_valid_wormhole_lane_capabilities (some chain_id) LaneCapabilities.direct
    | ExecutionMode.receiver_legacy ↦ do
      core ← given (invalid_wormhole_lane (some chain_id)) lane.wormhole_receiver_core_address
      version ← given (invalid_wormhole_lane (some chain_id)) lane.legacy_payload_version
      slot ← given (invalid_wormhole_lane (some chain_id)) lane.legacy_next_sequence_storage_slot
      assert_valid_wormhole_lane_capabilities (some chain_id) (legacy core version slot)
    | ExecutionMode.receiver_modern ↦ do
      core ← given (invalid_wormhole_lane (some chain_id)) lane.wormhole_receiver_core_address
      assert_valid_wormhole_lane_capabilities (some chain_id) (modern core)
  ]

  pub get_wormhole_lane_capabilities : Option ℕ → Result LaneCapabilities
  get_wormhole_lane_capabilities none =
      assert_valid_wormhole_lane_capabilities none LaneCapabilities.direct
  get_wormhole_lane_capabilities (some chain_id) =
      elim (get_wormhole_lane_by_chain_id viem.checksum viem.arc_name chain_id) [
        | none ↦ throw (unsupported_wormhole_chain chain_id)
        | some lane ↦ lane_capabilities chain_id lane
      ]
