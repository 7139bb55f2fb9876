-- ===== src/Arbitrum/Search.antt =====
-- utils/bridges/arbitrum.ts: the search of a trace finds the messages of all its calls.
use governance_seatbelt.Prelude.{
  String, Option, none, some, List, [], ◌∷◌, ◌++◌, ◌≡◌, refl, nat_eq, string_eq, Option-cases, inl,
  inr, sym, ◌∙◌, ap, All,
}
use governance_seatbelt.Viem.{Viem}
use governance_seatbelt.Arbitrum.{
  CallTrace, call, Calls, nil, cons, InboxCodec, InboxCall, Message, given, chain_of,
  find_arbitrum_inbox_calls, find_in_calls, message_of_call,
}
use governance_seatbelt.Arbitrum.Keys.{IsSupported}
use governance_seatbelt.Arbitrum.Messages.{chain_of-IsSupported}

-- A call of a trace by its target, its sender and its input.
pub record Seen : Type 0 where
  pub to : Option String
  pub from : Option String
  pub input : Option String

-- All calls of a trace: the call itself, and then those that it makes, each with its own.
mutual
  pub all_calls : CallTrace → List Seen
  all_calls (call to from input calls) =
      record { to = to; from = from; input = input } ∷ all_in_calls calls

  pub all_in_calls : Calls → List Seen
  all_in_calls nil = []
  all_in_calls (cons sub_call calls) = all_calls sub_call ++ all_in_calls calls

abbrev with_message : Option Message → List Message → List Message
with_message none messages = messages
with_message (some m) messages = m ∷ messages

module _ (viem : Viem) (codec : InboxCodec) where
  -- The message of a call of a trace, if the call is one of an inbox and can be read.
  pub message_at : Seen → Option Message
  message_at seen = elim (chain_of viem codec (given seen.to)) [
    | none ↦ none
    | some chain ↦
        message_of_call viem codec (record {
          from = given seen.from;
          input = given seen.input;
          destination_chain_id = chain;
        })
  ]

  pub messages_of : List Seen → List Message
  messages_of [] = []
  messages_of (seen ∷ calls) = with_message (message_at seen) (messages_of calls)

  unfoldable pub read_all : List InboxCall → List Message
  read_all [] = []
  read_all (inbox ∷ calls) = with_message (message_of_call viem codec inbox) (read_all calls)

  read_all-append : (a b : List InboxCall) → read_all (a ++ b) ≡ read_all a ++ read_all b
  unfolding read_all
  read_all-append [] b = refl
  read_all-append (inbox ∷ a) b = elim (Option-cases (message_of_call viem codec inbox)) [
    | inl unread ↦ rw unread (read_all-append a b)
    | inr (m, read) ↦ rw read (ap (λ l. m ∷ l) (read_all-append a b))
  ]

  messages_of-append : (a b : List Seen) → messages_of (a ++ b) ≡ messages_of a ++ messages_of b
  unfolding messages_of
  messages_of-append [] b = refl
  messages_of-append (seen ∷ a) b = elim (Option-cases (message_at seen)) [
    | inl unread ↦ rw unread (messages_of-append a b)
    | inr (m, read) ↦ rw read (ap (λ l. m ∷ l) (messages_of-append a b))
  ]

  -- The search finds the messages of all calls of the trace.
  mutual
    unfolding find_arbitrum_inbox_calls all_calls read_all messages_of message_at

    pub search_lem :
        (trace : CallTrace)
        → read_all (find_arbitrum_inbox_calls viem codec trace) ≡ messages_of (all_calls trace)
    search_lem (call to from input calls) = elim (Option-cases (chain_of viem codec (given to))) [
      | inl elsewhere ↦ rw (elsewhere, message_at) (search_in_calls_lem calls)
      | inr (chain, found) ↦
          rw (found, message_at)
            (ap
              (with_message (
                message_of_call viem codec (record {
                  from = given from;
                  input = given input;
                  destination_chain_id = chain;
                })))
              (search_in_calls_lem calls))
    ]

    search_in_calls_lem :
        (calls : Calls)
        → read_all (find_in_calls viem codec calls) ≡ messages_of (all_in_calls calls)
    search_in_calls_lem nil = refl
    search_in_calls_lem (cons sub_call calls) =
        read_all-append (find_arbitrum_inbox_calls viem codec sub_call)
          (find_in_calls viem codec calls)
        ∙ ap (λ l. l ++ read_all (find_in_calls viem codec calls)) (search_lem sub_call)
        ∙ ap (λ l. messages_of (all_calls sub_call) ++ l) (search_in_calls_lem calls)
        ∙ sym (messages_of-append (all_calls sub_call) (all_in_calls calls))

  -- The calls that the search finds are to the two chains.
  abbrev pub AreFound : List InboxCall → Type 0
  AreFound = All (λ inbox. IsSupported inbox.destination_chain_id)

  AreFound-append : (a b : List InboxCall) → AreFound a → AreFound b → AreFound (a ++ b)
  AreFound-append [] b h k = k
  AreFound-append (inbox ∷ a) b (x, h) k = (x, AreFound-append a b h k)

  mutual
    unfolding find_arbitrum_inbox_calls

    pub found_lem : (trace : CallTrace) → AreFound (find_arbitrum_inbox_calls viem codec trace)
    found_lem (call to from input calls) = elim (Option-cases (chain_of viem codec (given to))) [
      | inl elsewhere ↦ rw elsewhere (found_in_calls_lem calls)
      | inr (chain, found) ↦
          rw found
            (chain_of-IsSupported viem codec (given to) chain found, found_in_calls_lem calls)
    ]

    found_in_calls_lem : (calls : Calls) → AreFound (find_in_calls viem codec calls)
    found_in_calls_lem nil = tt
    found_in_calls_lem (cons sub_call calls) =
        AreFound-append (find_arbitrum_inbox_calls viem codec sub_call)
          (find_in_calls viem codec calls) (found_lem sub_call) (found_in_calls_lem calls)
