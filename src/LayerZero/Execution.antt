-- ===== src/LayerZero/Execution.antt =====
-- utils/bridges/layerzero-execution.ts: the test of the receiver's trusted remote before a job is run.
pub mod Laws
use Prim.Native.String.{count, slice}
use governance_seatbelt.Prelude.{
  ℕ, String, Option, none, some, List, Bool, true, false, ◌&&◌, ◌+◌, ◌*◌, ltb, if◌then◌else◌, ◌==◌,
  nat_eq, string_eq, Result, ok, throw, or_throw, ◌>>=◌, invalid_address, missing_trusted_remote,
  ambiguous_trusted_remote, trusted_remote_read_failed, trusted_remote_mismatch,
}
use governance_seatbelt.Text.{concat}
use governance_seatbelt.CrossChain.{Call, TrustedRemote, Job}
use governance_seatbelt.Viem.{Viem}

-- `trustedRemoteLookup` at a block: what the read answers, where it is a text.
pub record RemoteReader (S : Type 0) : Type 0 where
  pub trusted_remote_lookup : String → ℕ → Option ℕ → S → Option String × S

abbrev pub trusted_remote_path_length : ℕ
trusted_remote_path_length = 82

abbrev pub is_address : Option String → String → Bool
is_address none expected = false
is_address (some address) expected = address == expected

abbrev pub if_matched : List Call → Bool → Result (List Call)
if_matched calls true = ok calls
if_matched calls false = throw trusted_remote_mismatch

module _ (viem : Viem) where
  -- Twenty bytes of a hexadecimal text, from some byte on.
  unfoldable pub read_packed_address : String → ℕ → Option String
  read_packed_address value byte_offset =
      let start = 2 + byte_offset * 2 in
      let end_ = start + 40 in
      let address = concat "0x" (slice value start end_) in
      if ltb (count value) end_
      then none
      else if viem.is_hex address && count address == 42
      then viem.get_address address
      else none

  unfoldable pub layer_zero_trusted_remote_matches : String → String → String → Result Bool
  layer_zero_trusted_remote_matches configured expected_remote_address receiver_address = do
    expected_remote ←
        or_throw (invalid_address expected_remote_address)
          (viem.get_address expected_remote_address)
    expected_local ← or_throw (invalid_address receiver_address) (viem.get_address receiver_address)
    ok (
        count configured == trusted_remote_path_length
        && is_address (read_packed_address configured 0) expected_remote
        && is_address (read_packed_address configured 20) expected_local)

  -- What is read is used only if it is hexadecimal.
  abbrev pub after_read : Job → TrustedRemote → Option String → Result (List Call)
  after_read job trusted_remote none = throw trusted_remote_read_failed
  after_read job trusted_remote (some configured) =
      if viem.is_hex configured
      then (do
        matched ←
            layer_zero_trusted_remote_matches configured trusted_remote.expected_remote_address
              job.l2_from_address
        if_matched job.calls matched)
      else throw trusted_remote_read_failed

  -- With the number of storage slots that the working state overrides at an address.
  module _ {S : Type 0} (reader : RemoteReader S) (overridden_slots : String → ℕ)
      (block_number : Option ℕ) where
    abbrev pub prepare_with : Job → TrustedRemote → Option String → S → Result (List Call) × S
    prepare_with job trusted_remote none s = (throw (invalid_address job.l2_from_address), s)
    prepare_with job trusted_remote (some receiver) s =
        if ltb 0 (overridden_slots receiver)
        then (throw ambiguous_trusted_remote, s)
        else (let (answer, s') =
              reader.trusted_remote_lookup job.l2_from_address trusted_remote.source_remote_chain_id
                block_number s in
            (after_read job trusted_remote answer, s'))

    unfoldable pub prepare_layer_zero_execution : Job → S → Result (List Call) × S
    prepare_layer_zero_execution job s = elim job.layer_zero_trusted_remote [
      | none ↦ (throw missing_trusted_remote, s)
      | some trusted_remote ↦
          prepare_with job trusted_remote (viem.get_address job.l2_from_address) s
    ]
