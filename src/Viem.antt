-- ===== src/Viem.antt =====
-- What the bridges' parsers use of viem, and of JavaScript's strings. Each function that throws in the
-- source returns `none` here.
use governance_seatbelt.Prelude.{
  ℕ, String, Option, none, some, List, Bool, ◌&&◌, not, ◌==◌, string_eq, nat_eq, leb,
}
use Prim.Native.String.{count}

-- The arguments of `sendMessage` of a Wormhole sender.
pub record SendMessage : Type 0 where
  pub targets : List String
  pub values : List ℕ
  pub datas : List String
  pub chain_id : ℕ

-- A LayerZero executor payload; without signatures it is of the direct form.
pub record ExecutorPayload : Type 0 where
  pub targets : List String
  pub values : List ℕ
  pub signatures : Option (List String)
  pub calldatas : List String

pub record Viem : Type 0 where
  pub get_address : String → Option String
  pub is_hex : String → Bool
  -- `slice(data, 0, 4)`
  pub first_four_bytes : String → String
  pub to_function_selector : String → Option String
  -- `toFunctionSelector` of the signatures that the bridges' modules name
  pub send_message_selector : String
  pub set_trusted_remote_selector : String
  pub execute_selector : String
  -- `getAddress` on the addresses that the modules name, and the name of viem's chain `arc`
  pub checksum : String → String
  pub arc_name : String
  -- `toLowerCase`, `trim`
  pub to_lower_case : String → String
  pub trim : String → String
  -- `decodeFunctionData` for `sendMessage`, `setTrustedRemoteAddress` and `execute`
  pub decode_send_message : String → Option SendMessage
  pub decode_set_trusted_remote : String → Option (ℕ × String)
  pub decode_execute : String → Option (ℕ × String)
  -- `decodeAbiParameters` for the two forms of an executor payload
  pub decode_payload_with_signatures : String → Option ExecutorPayload
  pub decode_payload : String → Option ExecutorPayload

-- `isHex(data) && data !== '0x' && data.length >= 10` (hex texts have no surrogates)
abbrev pub has_selector : Viem → String → Bool
has_selector viem calldata =
    viem.is_hex calldata && not (calldata == "0x") && leb 10 (count calldata)

-- `getAddress(target).toLowerCase()`, or null
unfoldable pub normalize_proposal_target : Viem → String → Option String
normalize_proposal_target viem target = elim (viem.get_address target) [
  | none ↦ none
  | some address ↦ some (viem.to_lower_case address)
]
