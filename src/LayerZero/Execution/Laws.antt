-- ===== src/LayerZero/Execution/Laws.antt =====
-- utils/bridges/layerzero-execution.ts: what must hold for a job to be run.
use Prim.Native.String.{count, slice}
use governance_seatbelt.Prelude.{
  ℕ, String, Option, none, some, List, Bool, true, false, ◌&&◌, ltb, nat_eq, string_eq, eq_iff, ok,
  ◌≡◌, refl, arith, Bool-cases, Option-cases, inl, inr, ap, sym, ◌∙◌, ◌+◌, ◌*◌, false≢true,
  ok-injective, >>=-eq-ok, if◌then◌else◌,
}
use governance_seatbelt.Text.{concat}
use governance_seatbelt.CrossChain.{Call, TrustedRemote, Job}
use governance_seatbelt.Viem.{Viem}
use governance_seatbelt.LayerZero.Execution.{
  RemoteReader, read_packed_address, is_address, if_matched, after_read,
  layer_zero_trusted_remote_matches, prepare_layer_zero_execution,
}

-- A path of forty bytes: the remote address, and the local one.
pub record IsPath (viem : Viem) (configured remote_ local_ : String) : Type 0 where
  pub size : count configured ≡ 82
  pub at_remote : viem.get_address (concat "0x" (slice configured 2 42)) ≡ some remote_
  pub at_local : viem.get_address (concat "0x" (slice configured 42 82)) ≡ some local_

guarded-eq-some :
    (a b : Bool) (o : Option String) (expected : String)
    → is_address (if a then none else if b then o else none) expected ≡ true
    → o ≡ some expected
guarded-eq-some true b o expected h = absurd (false≢true h)
guarded-eq-some false false o expected h = absurd (false≢true h)
guarded-eq-some false true none expected h = absurd (false≢true h)
guarded-eq-some false true (some address) expected h = ap some ((eq_iff address expected).0 h)

read_packed_address-eq-some :
    (viem : Viem) (value : String) (byte_offset : ℕ) (expected : String)
    → is_address (read_packed_address viem value byte_offset) expected ≡ true
    → viem.get_address (concat "0x" (slice value (2 + byte_offset * 2) (2 + byte_offset * 2 + 40)))
      ≡ some expected
unfolding read_packed_address
read_packed_address-eq-some viem value byte_offset expected h = guarded-eq-some _ _ _ expected h

both_true : (a b c : Bool) → (a && b && c) ≡ true → (a ≡ true) × (b ≡ true) × (c ≡ true)
both_true a b c h = ground (arith, h)

layer_zero_trusted_remote_matches-IsPath :
    (viem : Viem) (configured expected receiver remote_ local_ : String)
    → viem.get_address expected ≡ some remote_
    → viem.get_address receiver ≡ some local_
    → layer_zero_trusted_remote_matches viem configured expected receiver ≡ ok true
    → IsPath viem configured remote_ local_
unfolding layer_zero_trusted_remote_matches
layer_zero_trusted_remote_matches-IsPath viem configured expected receiver remote_ local_ e r h =
    let (size, at_remote, at_local) = both_true _ _ _ (ok-injective (rw (e, r) at h)) in
    record {
      size = (eq_iff (count configured) 82).0 size;
      at_remote = read_packed_address-eq-some viem configured 0 remote_ at_remote;
      at_local = read_packed_address-eq-some viem configured 20 local_ at_local;
    }

-- What a job that is run has passed: its trusted remote is given, no slot of the receiver is overridden, and
-- what the receiver's chain answers at the block is the path from the expected remote to the receiver.
pub record IsTrusted (viem : Viem) {S : Type 0} (reader : RemoteReader S)
    (overridden_slots : String → ℕ) (block_number : Option ℕ) (job : Job) (s : S) : Type 0 where
  pub trusted_remote : TrustedRemote
  pub receiver : String
  pub remote_ : String
  pub configured : String
  pub is_given : job.layer_zero_trusted_remote ≡ some trusted_remote
  pub is_receiver : viem.get_address job.l2_from_address ≡ some receiver
  pub is_remote : viem.get_address trusted_remote.expected_remote_address ≡ some remote_
  pub unchanged : overridden_slots receiver ≡ 0
  pub read :
      (reader.trusted_remote_lookup job.l2_from_address trusted_remote.source_remote_chain_id
        block_number s).0
      ≡ some configured
  pub path : IsPath viem configured remote_ receiver

if_matched-eq-ok :
    (job_calls calls : List Call) (b : Bool)
    → if_matched job_calls b ≡ ok calls
    → (b ≡ true) × (calls ≡ job_calls)
if_matched-eq-ok job_calls calls true h = (refl, sym (ok-injective h))
if_matched-eq-ok job_calls calls false h = absurd cc

module _ (viem : Viem) (job : Job) (trusted_remote : TrustedRemote) (receiver : String)
    (is_receiver : viem.get_address job.l2_from_address ≡ some receiver) where
  matched-IsPath :
      (configured : String)
      → layer_zero_trusted_remote_matches viem configured trusted_remote.expected_remote_address
          job.l2_from_address
        ≡ ok true
      → (remote_ : String) × (viem.get_address trusted_remote.expected_remote_address
          ≡ some remote_)
        × IsPath viem configured remote_ receiver
  unfolding layer_zero_trusted_remote_matches
  matched-IsPath configured h =
      elim (Option-cases (viem.get_address trusted_remote.expected_remote_address)) [
        | inl missing ↦ let h' = rw missing at h in absurd cc
        | inr (remote_, is_remote) ↦ (
          remote_,
          is_remote,
          layer_zero_trusted_remote_matches-IsPath viem configured
              trusted_remote.expected_remote_address job.l2_from_address remote_ receiver is_remote
              is_receiver h,
        )
      ]

  after_read-IsPath :
      (o : Option String) (calls : List Call)
      → after_read viem job trusted_remote o ≡ ok calls
      → (calls ≡ job.calls)
        × ((configured : String) × (o ≡ some configured)
            × ((remote_ : String) × (viem.get_address trusted_remote.expected_remote_address
                  ≡ some remote_)
                × IsPath viem configured remote_ receiver))
  after_read-IsPath none calls h = absurd cc
  after_read-IsPath (some configured) calls h = elim (Bool-cases (viem.is_hex configured)) [
    | inr bad ↦ let h' = rw bad at h in absurd cc
    | inl fine ↦
        let (b, matches, run) =
          >>=-eq-ok
            (layer_zero_trusted_remote_matches viem configured
              trusted_remote.expected_remote_address job.l2_from_address)
            (if_matched job.calls) (rw fine at h) in
        let (is_true, same) = if_matched-eq-ok job.calls calls b run in
        (same, (configured, refl, matched-IsPath configured (matches ∙ ap ok is_true)))
  ]

-- A LayerZero job is run only with its own calls, and only if the receiver trusts the expected remote.
pub prepare_layer_zero_execution-IsTrusted :
    (viem : Viem) {S : Type 0} (reader : RemoteReader S) (overridden_slots : String → ℕ)
    (block_number : Option ℕ) (job : Job) (s : S) (calls : List Call)
    → (prepare_layer_zero_execution viem reader overridden_slots block_number job s).0 ≡ ok calls
    → (calls ≡ job.calls) × IsTrusted viem reader overridden_slots block_number job s
unfolding prepare_layer_zero_execution
prepare_layer_zero_execution-IsTrusted viem reader slots block job s calls h =
    elim (Option-cases job.layer_zero_trusted_remote) [
      | inl missing ↦ let h' = rw missing at h in absurd cc
      | inr (trusted_remote, is_given) ↦
          elim (Option-cases (viem.get_address job.l2_from_address)) [
            | inl missing ↦ let h' = rw (is_given, missing) at h in absurd cc
            | inr (receiver, is_receiver) ↦ elim (Bool-cases (ltb 0 (slots receiver))) [
              | inl changed ↦ let h' = rw (is_given, is_receiver, changed) at h in absurd cc
              | inr unchanged ↦
                  let (same, (configured, read, (remote_, is_remote, path))) =
                    after_read-IsPath viem job trusted_remote receiver is_receiver _ calls
                      (rw (is_given, is_receiver, unchanged) at h) in
                  (
                    same,
                    record {
                      trusted_remote = trusted_remote;
                      receiver = receiver;
                      remote_ = remote_;
                      configured = configured;
                      is_given = is_given;
                      is_receiver = is_receiver;
                      is_remote = is_remote;
                      unchanged = ground (arith, unchanged);
                      read = read;
                      path = path;
                    },
                  )
            ]
          ]
    ]
