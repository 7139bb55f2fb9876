-- ===== src/Arbitrum/Laws.antt =====
-- utils/bridges/arbitrum.ts: which of a trace's messages become jobs.
use governance_seatbelt.Prelude.{
  ℕ, String, Option, none, some, List, [], ◌∷◌, refl, if◌then◌else◌, nat_eq, string_eq, length,
  or_else, or_else-none, or_else_assoc, Bool-cases, Option-cases, inl, inr,
}
use governance_seatbelt.Dict.{Dict, values, IsDistinct}
use governance_seatbelt.Dict.Laws.{put-IsDistinct}
use governance_seatbelt.CrossChain.{Job}
use governance_seatbelt.Viem.{Viem}
use governance_seatbelt.Arbitrum.{
  CallTrace, InboxCodec, InboxCall, Message, job_of, find_arbitrum_inbox_calls, message_of_call,
  set_job, set_jobs, jobs_by_target_and_calldata, extract_arbitrum_l1_l2_jobs,
}
use governance_seatbelt.Arbitrum.Keys.{IsKeyed, is_message_to}
use governance_seatbelt.Arbitrum.Messages.{IsDecoder, message_of_call-IsKeyed}
use governance_seatbelt.Arbitrum.Jobs.{
  last_to, job_to, AreApart, IsJobOf, AreEntries, job_to-put, put-AreEntries, AreApart-entries,
}
use governance_seatbelt.Arbitrum.Search.{
  all_calls, messages_of, read_all, search_lem, found_lem, AreFound,
}

module _ (viem : Viem) (codec : InboxCodec) (decoder : IsDecoder codec) where
  -- What holds of the jobs so far, by the messages so far.
  record Holds (jobs : Dict String Job) (o : ℕ → String → String → Option Message) : Type 0 where
    entries : AreEntries jobs
    distinct : IsDistinct jobs
    jobs_of :
        (chain : ℕ) (target input : String)
        → IsJobOf (job_to chain target input (values jobs)) (o chain target input)

  set_job-Holds :
      (m : Message) (jobs : Dict String Job) (o : ℕ → String → String → Option Message)
      → IsKeyed m
      → Holds jobs o
      → Holds (set_job viem codec m jobs) (λ chain target input.
        or_else
          (if is_message_to chain target input m then some m else none)
          (o chain target input))
  set_job-Holds m jobs o keyed h = record {
    entries = put-AreEntries (length jobs) m jobs keyed h.entries;
    distinct = put-IsDistinct m.key (job_of (length jobs) m) jobs h.distinct;
    jobs_of = λ chain target input.
        rw (job_to-put chain target input (length jobs) m jobs keyed h.entries)
          (elim (Bool-cases (is_message_to chain target input m)) [
            | inl to_it ↦ rw to_it (length jobs, refl)
            | inr elsewhere ↦ rw elsewhere (h.jobs_of chain target input)
          ]);
  }

  set_jobs-Holds :
      (calls : List InboxCall) (jobs : Dict String Job) (o : ℕ → String → String → Option Message)
      → AreFound viem codec calls
      → Holds jobs o
      → Holds (set_jobs viem codec jobs calls) (λ chain target input.
        or_else (last_to chain target input (read_all viem codec calls)) (o chain target input))
  unfolding set_jobs read_all last_to
  set_jobs-Holds [] jobs o found h = h
  set_jobs-Holds (inbox ∷ calls) jobs o (on, found) h =
      elim (Option-cases (message_of_call viem codec inbox)) [
        | inl unread ↦ rw unread (set_jobs-Holds calls jobs o found h)
        | inr (m, read) ↦
            let keyed = message_of_call-IsKeyed viem codec decoder inbox m on read in
            let g =
              set_jobs-Holds calls (set_job viem codec m jobs) _ found
                (set_job-Holds m jobs o keyed h) in
            rw read (record {
              entries = g.entries;
              distinct = g.distinct;
              jobs_of = λ chain target input.
                  rw
                    (or_else_assoc (last_to chain target input (read_all viem codec calls))
                      (if is_message_to chain target input m then some m else none)
                      (o chain target input))
                    (g.jobs_of chain target input);
            })
      ]

  -- The jobs of a trace: no two are to the same target on the same chain with the same calldata; and there
  -- is a job for a target, a chain and a calldata exactly if some call of the trace, however deeply nested,
  -- is one of an inbox of that chain whose message can be read and is to that target with that
  -- calldata, and then the job is of the last such message. viem decodes addresses to 42 characters.
  pub extract_arbitrum_l1_l2_jobs-IsJobOf :
      (trace : CallTrace)
      → AreApart (extract_arbitrum_l1_l2_jobs viem codec (some trace))
        × ((chain : ℕ) (target input : String)
            → IsJobOf
                (job_to chain target input (extract_arbitrum_l1_l2_jobs viem codec (some trace)))
                (last_to chain target input (messages_of viem codec (all_calls trace))))
  unfolding extract_arbitrum_l1_l2_jobs jobs_by_target_and_calldata
  extract_arbitrum_l1_l2_jobs-IsJobOf trace =
      let h =
        set_jobs-Holds (find_arbitrum_inbox_calls viem codec trace) [] (λ chain target input. none)
          (found_lem viem codec trace)
          (record {
            entries = tt;
            distinct = tt;
            jobs_of = λ chain target input. unfold job_to in tt;
          }) in
      (
        AreApart-entries (set_jobs viem codec [] (find_arbitrum_inbox_calls viem codec trace))
            h.entries h.distinct,
        λ chain target input. rw (← search_lem viem codec trace) (
            rw
              (← or_else-none (
                last_to chain target input
                  (read_all viem codec (find_arbitrum_inbox_calls viem codec trace))))
              (h.jobs_of chain target input)),
      )
