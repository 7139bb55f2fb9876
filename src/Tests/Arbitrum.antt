-- ===== src/Tests/Arbitrum.antt =====
-- A trace with nested calls of both inboxes, which send the same calldata to the same target.
use governance_seatbelt.Prelude.{ℕ, String, some, none, [], ◌∷◌, ◌≡◌, refl, string_eq, map}
use governance_seatbelt.Dict.{put}
use governance_seatbelt.Text.{to_decimal}
use governance_seatbelt.Tests.LayerZero.{viem}
use governance_seatbelt.Arbitrum.{
  CallTrace, call, nil, cons, valued, jobs_by_target_and_calldata, set_jobs, message_of_call,
  get_arbitrum_destination_chain_id, calculate_l2_alias, find_arbitrum_inbox_calls, InboxCodec,
  extract_arbitrum_l1_l2_jobs,
}
use governance_seatbelt.Arbitrum.Messages.{IsDecoder}
use governance_seatbelt.Arbitrum.Jobs.{AreApart, IsJobOf, job_to, last_to}
use governance_seatbelt.Arbitrum.Search.{all_calls, messages_of}
use governance_seatbelt.Arbitrum.Laws.{extract_arbitrum_l1_l2_jobs-IsJobOf}

abbrev codec : InboxCodec
codec = record {
  handled_selectors = "0xticket00" ∷ [];
  decode_inbox_call = λ s. some (valued "0x1111111111111111111111111111111111111111" 5 "0xdata");
  decode_send_message = λ s. none;
  hex_to_bigint = λ s. 17;
  to_hex_20 = λ n. "0xalias";
}

codec-IsDecoder : IsDecoder codec
codec-IsDecoder = record { inbox = λ s. refl; send_message = λ s. tt }

abbrev one : CallTrace
one =
    call (some "0x4dbd4fc535ac27206064b68ffcf827b0a60bab3f") (some "0xsender") (some "0xticket00")
      nil

abbrev robinhood : CallTrace
robinhood =
    call (some "0x1a07cc4bd17e0118bdb54d70990d2158abad7a2d") (some "0xsender") (some "0xticket00")
      (cons one nil)

abbrev trace : CallTrace
trace = call (some "0xtimelock") none none (cons one (cons robinhood nil))

two_jobs_lem :
    map (λ job. job.destination_chain_id) (extract_arbitrum_l1_l2_jobs viem codec (some trace))
    ≡ 42161 ∷ 4663 ∷ []
unfolding extract_arbitrum_l1_l2_jobs jobs_by_target_and_calldata set_jobs message_of_call
    get_arbitrum_destination_chain_id calculate_l2_alias find_arbitrum_inbox_calls put to_decimal
two_jobs_lem = refl

extract_arbitrum_l1_l2_jobs-IsJobOf_example :
    AreApart (extract_arbitrum_l1_l2_jobs viem codec (some trace))
    × ((chain : ℕ) (target input : String)
        → IsJobOf
            (job_to chain target input (extract_arbitrum_l1_l2_jobs viem codec (some trace)))
            (last_to chain target input (messages_of viem codec (all_calls trace))))
extract_arbitrum_l1_l2_jobs-IsJobOf_example =
    extract_arbitrum_l1_l2_jobs-IsJobOf viem codec codec-IsDecoder trace
