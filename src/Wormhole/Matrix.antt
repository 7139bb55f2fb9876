-- ===== src/Wormhole/Matrix.antt =====
-- utils/bridges/wormhole-support.ts, lines 217 to 332: what is wrong with a support matrix.
pub mod Laws
use governance_seatbelt.Prelude.{
  ℕ, String, Option, none, some, List, [], ◌∷◌, ◌++◌, Bool, true, false, not, ◌&&◌, if◌then◌else◌,
  ◌==◌, nat_eq, string_eq, length, is_some,
}
use governance_seatbelt.Dedupe.{has}
use governance_seatbelt.Wormhole.Lane.{
  LaneKey, Lane, ExecutionMode, direct, receiver_modern, receiver_legacy,
}

-- The kinds of issue, each reported with the key of its lane.
pub data Kind : Type 0 where
  duplicate_wormhole_chain_id duplicate_destination_chain_id : ℕ → Kind
  no_sender_targets : Kind
  invalid_l2_from_address : Kind
  invalid_sender_target : String → Kind
  missing_v2_target invalid_v2_factory invalid_v3_factory invalid_v4_pool_manager : Kind
  direct_with_core direct_with_payload_version direct_with_slot : Kind
  modern_without_core modern_with_payload_version modern_with_slot : Kind
  legacy_without_core legacy_without_payload_version legacy_without_slot : Kind
  invalid_core : Kind

pub record Issue : Type 0 where
  pub key : LaneKey
  pub kind : Kind

unfoldable pub issue_if : Bool → LaneKey → Kind → List Issue
issue_if b key kind = if b then record { key = key; kind = kind } ∷ [] else []

-- The truthiness of a text that may be undefined.
abbrev pub is_given : Option String → Bool
is_given none = false
is_given (some s) = not (s == "")

module _ (get_address : String → Option String) where
  abbrev pub is_valid_address : String → Bool
  is_valid_address value = is_some (get_address value)

  -- `value !== undefined && !isValidAddress(value)`
  abbrev pub is_bad : Option String → Bool
  is_bad none = false
  is_bad (some value) = not (is_valid_address value)

  pub sender_issues : LaneKey → List String → List Issue
  sender_issues key [] = []
  sender_issues key (target ∷ targets) =
      issue_if (not (is_valid_address target)) key (invalid_sender_target target)
      ++ sender_issues key targets

  pub address_issues : Lane → List Issue
  address_issues lane =
      issue_if (length lane.sender_targets == 0) lane.key no_sender_targets
      ++ issue_if (not (is_valid_address lane.l2_from_address)) lane.key invalid_l2_from_address
      ++ sender_issues lane.key lane.sender_targets
      ++ issue_if (lane.validation_targets.v2_factory == "") lane.key missing_v2_target
      ++ issue_if (not (is_valid_address lane.validation_targets.v2_factory)) lane.key
          invalid_v2_factory
      ++ issue_if (is_bad lane.validation_targets.v3_factory) lane.key invalid_v3_factory
      ++ issue_if (is_bad lane.validation_targets.v4_pool_manager) lane.key invalid_v4_pool_manager

  pub mode_issues : ExecutionMode → Lane → List Issue
  mode_issues direct lane =
      issue_if (is_some lane.wormhole_receiver_core_address) lane.key direct_with_core
      ++ issue_if (is_some lane.legacy_payload_version) lane.key direct_with_payload_version
      ++ issue_if (is_some lane.legacy_next_sequence_storage_slot) lane.key direct_with_slot
  mode_issues receiver_modern lane =
      issue_if (not (is_given lane.wormhole_receiver_core_address)) lane.key modern_without_core
      ++ issue_if (is_some lane.legacy_payload_version) lane.key modern_with_payload_version
      ++ issue_if (is_some lane.legacy_next_sequence_storage_slot) lane.key modern_with_slot
  mode_issues receiver_legacy lane =
      issue_if (not (is_given lane.wormhole_receiver_core_address)) lane.key legacy_without_core
      ++ issue_if (not (is_given lane.legacy_payload_version)) lane.key
          legacy_without_payload_version
      ++ issue_if (not (is_given lane.legacy_next_sequence_storage_slot)) lane.key
          legacy_without_slot

  -- The lanes in the order of the matrix's keys, and the ids of the lanes before.
  pub matrix_issues : List ℕ → List ℕ → List Lane → List Issue
  matrix_issues seen_wormhole seen_destination [] = []
  matrix_issues seen_wormhole seen_destination (lane ∷ lanes) =
      issue_if (has lane.wormhole_chain_id seen_wormhole) lane.key
        (duplicate_wormhole_chain_id lane.wormhole_chain_id)
      ++ issue_if (has lane.destination_chain_id seen_destination) lane.key
          (duplicate_destination_chain_id lane.destination_chain_id)
      ++ address_issues lane
      ++ mode_issues lane.execution_mode lane
      ++ issue_if (is_bad lane.wormhole_receiver_core_address) lane.key invalid_core
      ++ matrix_issues (lane.wormhole_chain_id ∷ seen_wormhole)
          (lane.destination_chain_id ∷ seen_destination) lanes

  pub get_wormhole_support_matrix_issues : List Lane → List Issue
  get_wormhole_support_matrix_issues lanes = matrix_issues [] [] lanes
