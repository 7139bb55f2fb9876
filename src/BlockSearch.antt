-- ===== src/BlockSearch.antt =====
-- utils/bridges/wormhole-execution.ts, lines 80 to 115: the destination block of a source timestamp.
pub mod Laws
use governance_seatbelt.Prelude.{
  ℕ, zero, suc, ◌+◌, ◌-◌, ◌/◌, Bool, true, false, ltb, leb, if◌then◌else◌,
}
use governance_seatbelt.Exec.{Exec, pure, ◌>>=◌}
use governance_seatbelt.Retry.{with_destination_setup_retry}

pub record Block : Type 0 where
  pub number : ℕ
  pub timestamp : ℕ

-- What is used of a chain's RPC client.
pub record Client (S : Type 0) : Type 0 where
  pub get_block_number : Exec S ℕ
  pub get_block : ℕ → Exec S Block

module _ {S : Type 0} (client : Client S) (source_timestamp : ℕ) where
  -- The loop, by fuel. `end` is `high + 1`, since `high` is -1 after the search below block 0.
  pub search : ℕ → ℕ → ℕ → ℕ → Exec S ℕ
  search zero low end best = pure best
  search (suc fuel) low end best =
      let mid = (low + (end - 1)) / 2 in
      let halve = with_destination_setup_retry (client.get_block mid) >>= λ candidate_block.
      elim (leb candidate_block.timestamp source_timestamp) [
        | true ↦ search fuel (mid + 1) end candidate_block.number
        | false ↦ search fuel low mid best
      ] in
      if ltb low end then halve else pure best

  -- The interval shrinks in every round, so its length is enough fuel.
  pub find_block_number_at_or_before_timestamp : Exec S ℕ
  find_block_number_at_or_before_timestamp = do
    latest_block_number ← with_destination_setup_retry client.get_block_number
    latest_block ← with_destination_setup_retry (client.get_block latest_block_number)
    if leb latest_block.timestamp source_timestamp
        then pure latest_block.number
        else search (suc latest_block.number) 0 (suc latest_block.number) 0
