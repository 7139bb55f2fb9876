-- ===== src/Chains.antt =====
-- utils/chains/capabilities.ts. viem's chain ids are written as utils/treasury-movement.ts has them.
use governance_seatbelt.Prelude.{ℕ, Bool, true, false, none, some, List, [], ◌∷◌, nat_eq, filter_by}
use governance_seatbelt.Dict.{Dict, lookup}

pub record ChainCapability : Type 0 where
  pub supports_l2_checks : Bool
  pub is_op_stack_destination : Bool

abbrev no_checks : ChainCapability
no_checks = record { supports_l2_checks = false; is_op_stack_destination = false }

abbrev checks_only : ChainCapability
checks_only = record { supports_l2_checks = true; is_op_stack_destination = false }

abbrev op_stack : ChainCapability
op_stack = record { supports_l2_checks = true; is_op_stack_destination = true }

unfoldable pub chain_capabilities : Dict ℕ ChainCapability
chain_capabilities =
    (5042, checks_only)
    ∷ (1, no_checks)
    ∷ (10, op_stack)
    ∷ (8453, op_stack)
    ∷ (42161, checks_only)
    ∷ (4663, checks_only)
    ∷ (130, op_stack)
    ∷ (57073, op_stack)
    ∷ (1868, op_stack)
    ∷ (60808, op_stack)
    ∷ (56, checks_only)
    ∷ (42220, op_stack)
    ∷ (137, checks_only)
    ∷ (43114, checks_only)
    ∷ (143, checks_only)
    ∷ (4217, checks_only)
    ∷ (4326, checks_only)
    ∷ (480, op_stack)
    ∷ (196, op_stack)
    ∷ (7777777, op_stack)
    ∷ []

op_stack_destination_chain_order : List ℕ
op_stack_destination_chain_order =
    10 ∷ 8453 ∷ 130 ∷ 196 ∷ 480 ∷ 42220 ∷ 57073 ∷ 1868 ∷ 60808 ∷ 7777777 ∷ []

-- `CHAIN_CAPABILITIES[chainId]?.supportsL2Checks ?? false`
unfoldable pub supports_l2_checks : ℕ → Bool
unfolding lookup chain_capabilities
supports_l2_checks chain_id = elim (lookup chain_id chain_capabilities) [
  | none ↦ false
  | some capability ↦ capability.supports_l2_checks
]

is_op_stack_destination : ℕ → Bool
is_op_stack_destination chain_id = elim (lookup chain_id chain_capabilities) [
  | none ↦ false
  | some capability ↦ capability.is_op_stack_destination
]

pub get_op_stack_destination_chain_ids : List ℕ
unfolding lookup chain_capabilities is_op_stack_destination op_stack_destination_chain_order
get_op_stack_destination_chain_ids =
    filter_by is_op_stack_destination op_stack_destination_chain_order
