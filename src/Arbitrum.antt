-- ===== src/Arbitrum.antt =====
-- utils/bridges/arbitrum.ts: the destination jobs of calls to Arbitrum's inboxes.
pub mod Keys
pub mod Messages
pub mod Jobs
pub mod Search
pub mod Laws
use Prim.Native.String.{count, slice}
use governance_seatbelt.Prelude.{
  ℕ, suc, String, Option, none, some, List, [], ◌∷◌, ◌++◌, Bool, true, false, ◌&&◌, ◌||◌, ◌+◌, ltb,
  not, if◌then◌else◌, ◌==◌, nat_eq, string_eq, length, Result, ok, throw, or_throw, ◌>>=◌, external,
  invalid_address, from_option,
}
use governance_seatbelt.Dict.{Dict, put, values}
use governance_seatbelt.Dedupe.{has}
use governance_seatbelt.Text.{concat, to_decimal}
use governance_seatbelt.CrossChain.{BridgeType, Call, Job}
use governance_seatbelt.Viem.{Viem}

-- CallTrace, as far as the search reads it; an empty text counts as missing.
mutual
  pub data CallTrace : Type 0 where
    call : (to from input : Option String) → Calls → CallTrace

  pub data Calls : Type 0 where
    nil : Calls
    cons : CallTrace → Calls → Calls

-- What `decodeFunctionData` finds in a call of an inbox: a retryable ticket of any kind, or a transaction with
-- a value, by its target, value and data; one that is funded on the source chain; a message; or another
-- function.
pub data Decoded : Type 0 where
  valued : String → ℕ → String → Decoded
  l1_funded : String → String → Decoded
  l2_message : String → Decoded
  other : Decoded

-- What the code uses of viem for it: the inbox's selectors, the two decoders, and numbers in hexadecimal.
pub record InboxCodec : Type 0 where
  pub handled_selectors : List String
  pub decode_inbox_call : String → Option Decoded
  pub decode_send_message : String → Option (String × String)
  pub hex_to_bigint : String → ℕ
  pub to_hex_20 : ℕ → String

pub record InboxCall : Type 0 where
  pub from : Option String
  pub input : Option String
  pub destination_chain_id : ℕ

abbrev pub arb_alias_offset : ℕ
arb_alias_offset = 0x1111000000000000000000000000000000001111

abbrev pub address_limit : ℕ
address_limit = 0x10000000000000000000000000000000000000000

-- A job but for its order.
pub record Message : Type 0 where
  pub key : String
  pub destination_chain_id : ℕ
  pub l2_from_address : String
  pub call : Call

abbrev pub job_of : ℕ → Message → Job
job_of source_order message = record {
  bridge_type = BridgeType.arbitrum;
  destination_chain_id = message.destination_chain_id;
  l2_from_address = message.l2_from_address;
  wormhole_chain_id = none;
  layer_zero_trusted_remote = none;
  source_order = source_order;
  calls = message.call ∷ [];
}

abbrev pub given : Option String → Option String
given none = none
given (some s) = if s == "" then none else some s

abbrev pub message_key : ℕ → String → String → String
message_key chain target input =
    concat (to_decimal chain) (concat "-" (concat target (concat "-" input)))

abbrev pub message : ℕ → String → String → String → ℕ → Message
message chain l2_alias target input value = record {
  key = message_key chain target input;
  destination_chain_id = chain;
  l2_from_address = l2_alias;
  call = record { l2_target_address = target; l2_input_data = input; l2_value = value };
}

module _ (viem : Viem) (codec : InboxCodec) where
  unfoldable pub get_arbitrum_destination_chain_id : String → Option ℕ
  get_arbitrum_destination_chain_id inbox_address =
      let lowered = viem.to_lower_case inbox_address in
      if "0x4dbd4fc535ac27206064b68ffcf827b0a60bab3f" == lowered
      then some 42161
      else if "0x1a07cc4bd17e0118bdb54d70990d2158abad7a2d" == lowered
      then some 4663
      else none

  -- `toHex(…, { size: 20 })` throws on a number that needs more than 20 bytes.
  unfoldable pub calculate_l2_alias : String → Option String
  calculate_l2_alias l1_address =
      let l2_alias = codec.hex_to_bigint l1_address + arb_alias_offset in
      if ltb l2_alias address_limit then viem.get_address (codec.to_hex_20 l2_alias) else none

  abbrev pub inbox_call : Option String → Option String → Option ℕ → List InboxCall
  inbox_call from input none = []
  inbox_call from input (some chain) =
      record { from = from; input = input; destination_chain_id = chain } ∷ []

  abbrev pub chain_of : Option String → Option ℕ
  chain_of none = none
  chain_of (some to) = get_arbitrum_destination_chain_id to

  unfoldable mutual
    pub find_arbitrum_inbox_calls : CallTrace → List InboxCall
    find_arbitrum_inbox_calls (call to from input calls) =
        inbox_call (given from) (given input) (chain_of (given to)) ++ find_in_calls calls

    find_in_calls : Calls → List InboxCall
    find_in_calls nil = []
    find_in_calls (cons sub_call calls) = find_arbitrum_inbox_calls sub_call ++ find_in_calls calls

  abbrev pub decoded_message : ℕ → String → Option Decoded → Option Message
  decoded_message chain l2_alias none = none
  decoded_message chain l2_alias (some (valued target value input)) =
      some (message chain l2_alias target input value)
  decoded_message chain l2_alias (some (l1_funded target input)) =
      some (message chain l2_alias target input 0)
  decoded_message chain l2_alias (some (l2_message input)) =
      elim (codec.decode_send_message input) [
        | none ↦ none
        | some (target, message_) ↦ some (message chain l2_alias target message_ 0)
      ]
  decoded_message chain l2_alias (some other) = none

  abbrev pub sender_alias : String → Option String
  sender_alias from = elim (viem.get_address from) [
    | none ↦ none
    | some l1_sender ↦ calculate_l2_alias l1_sender
  ]

  abbrev pub is_handled : String → Bool
  is_handled input =
      let selector = viem.to_lower_case (slice input 0 10) in
      not (input == "0x" || ltb (count input) 10)
      && not (selector == "0x00000000")
      && has selector codec.handled_selectors

  -- The message of an inbox call; whatever throws on the way is caught, and the call is skipped.
  unfoldable pub message_of_call : InboxCall → Option Message
  message_of_call inbox = elim inbox.input [
    | none ↦ none
    | some input ↦ elim inbox.from [
      | none ↦ none
      | some from ↦ if not (is_handled input) then none else elim (sender_alias from) [
        | none ↦ none
        | some l2_alias ↦
            decoded_message inbox.destination_chain_id l2_alias (codec.decode_inbox_call input)
      ]
    ]
  ]

  -- `jobsByTargetAndCalldata.set(key, message)`
  abbrev pub set_job : Message → Dict String Job → Dict String Job
  set_job m jobs = put m.key (job_of (length jobs) m) jobs

  abbrev pub set_message : Option Message → Dict String Job → Dict String Job
  set_message none jobs = jobs
  set_message (some m) jobs = set_job m jobs

  unfoldable pub set_jobs : Dict String Job → List InboxCall → Dict String Job
  set_jobs jobs [] = jobs
  set_jobs jobs (inbox ∷ calls) = set_jobs (set_message (message_of_call inbox) jobs) calls

  unfoldable pub jobs_by_target_and_calldata : CallTrace → Dict String Job
  unfolding set_jobs
  jobs_by_target_and_calldata trace = set_jobs [] (find_arbitrum_inbox_calls trace)

  unfoldable pub extract_arbitrum_l1_l2_jobs : Option CallTrace → List Job
  unfolding jobs_by_target_and_calldata
  extract_arbitrum_l1_l2_jobs none = []
  extract_arbitrum_l1_l2_jobs (some trace) = values (jobs_by_target_and_calldata trace)

  abbrev job_list : Option Job → Result (List Job) → Result (List Job)
  job_list none jobs = jobs
  job_list job (throw e) = throw e
  job_list (some job) (ok jobs) = ok (job ∷ jobs)

  -- Messages, which name their targets themselves, are not read from a proposal.
  abbrev proposal_job : ℕ → ℕ → String → Option Decoded → Option Job
  proposal_job index chain l2_alias none = none
  proposal_job index chain l2_alias (some (valued target value input)) =
      some (job_of index (message chain l2_alias target input value))
  proposal_job index chain l2_alias (some (l1_funded target input)) =
      some (job_of index (message chain l2_alias target input 0))
  proposal_job index chain l2_alias (some (l2_message input)) = none
  proposal_job index chain l2_alias (some other) = none

  abbrev job_of_call : ℕ → String → String → Option ℕ → Option Job
  job_of_call index l2_alias calldata none = none
  job_of_call index l2_alias calldata (some chain) =
      if calldata == "0x" || ltb (count calldata) 10
      then none
      else proposal_job index chain l2_alias (codec.decode_inbox_call calldata)

  -- The loop, from the call of some index on.
  pub jobs_from_proposal : String → ℕ → List String → List String → Result (List Job)
  jobs_from_proposal l2_alias index [] calldatas = ok []
  jobs_from_proposal l2_alias index (target ∷ targets) [] = ok []
  jobs_from_proposal l2_alias index (target ∷ targets) (calldata ∷ calldatas) =
      let rest = jobs_from_proposal l2_alias (suc index) targets calldatas in
      if target == "" || calldata == "" then rest else elim (viem.get_address target) [
        | none ↦ throw (invalid_address target)
        | some address ↦
            job_list
              (job_of_call index l2_alias calldata (get_arbitrum_destination_chain_id address)) rest
      ]

  abbrev zero_address : String
  zero_address = "0x0000000000000000000000000000000000000000"

  pub extract_arbitrum_l1_l2_jobs_from_proposal :
      List String → List String → Option String → Result (List Job)
  unfolding jobs_from_proposal
  extract_arbitrum_l1_l2_jobs_from_proposal targets calldatas l1_sender = do
    let sender = from_option zero_address (given l1_sender)
    from ← or_throw (invalid_address sender) (viem.get_address sender)
    l2_alias ← or_throw (external "toHex") (calculate_l2_alias from)
    jobs_from_proposal l2_alias 0 targets calldatas
