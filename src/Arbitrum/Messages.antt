-- ===== src/Arbitrum/Messages.antt =====
-- utils/bridges/arbitrum.ts: what the messages of inbox calls that can be read have in common.
use Prim.Native.String.{count}
use governance_seatbelt.Prelude.{
  ℕ, String, Option, none, some, ◌≡◌, refl, sym, ◌==◌, not, string_eq, Bool-cases, Option-cases,
  inl, inr, some-injective, none≢some, subst,
}
use governance_seatbelt.Viem.{Viem}
use governance_seatbelt.Arbitrum.{
  Message, Decoded, valued, l1_funded, l2_message, other, InboxCodec, InboxCall, message_of_call,
  decoded_message, is_handled, sender_alias, get_arbitrum_destination_chain_id, chain_of,
}
use governance_seatbelt.Arbitrum.Keys.{IsKeyed, IsSupported}

abbrev IsTarget : Option Decoded → Type 0
IsTarget (some (valued target value input)) = count target ≡ 42
IsTarget (some (l1_funded target input)) = count target ≡ 42
IsTarget _ = Unit

abbrev IsSendTarget : Option (String × String) → Type 0
IsSendTarget none = Unit
IsSendTarget (some (target, input)) = count target ≡ 42

-- viem decodes an address to the 42 characters of its text.
pub record IsDecoder (codec : InboxCodec) : Type 0 where
  pub inbox : (input : String) → IsTarget (codec.decode_inbox_call input)
  pub send_message : (input : String) → IsSendTarget (codec.decode_send_message input)

module _ (viem : Viem) (codec : InboxCodec) where
  decoded_message-IsKeyed :
      IsDecoder codec
      → (chain : ℕ) (l2_alias : String) (d : Option Decoded) (m : Message) → IsSupported chain
      → IsTarget d
      → decoded_message viem codec chain l2_alias d ≡ some m
      → IsKeyed m
  decoded_message-IsKeyed decoder chain l2_alias none m on target h = absurd (none≢some h)
  decoded_message-IsKeyed decoder chain l2_alias (some (valued t value input)) m on target h =
      subst IsKeyed (some-injective h) (record { on_chain = on; to_address = target; keyed = refl })
  decoded_message-IsKeyed decoder chain l2_alias (some (l1_funded t input)) m on target h =
      subst IsKeyed (some-injective h) (record { on_chain = on; to_address = target; keyed = refl })
  decoded_message-IsKeyed decoder chain l2_alias (some (l2_message input)) m on target h =
      elim (Option-cases (codec.decode_send_message input)) [
        | inl unread ↦ absurd (none≢some (rw (unread, decoded_message) at h))
        | inr ((t, data_), read) ↦
            subst IsKeyed (some-injective (rw (read, decoded_message) at h)) (record {
              on_chain = on;
              to_address = rw read at (decoder.send_message input);
              keyed = refl;
            })
      ]
  decoded_message-IsKeyed decoder chain l2_alias (some other) m on target h = absurd (none≢some h)

  -- The message of an inbox call to one of the two chains has a key of its chain, target and calldata.
  pub message_of_call-IsKeyed :
      IsDecoder codec
      → (inbox : InboxCall) (m : Message) → IsSupported inbox.destination_chain_id
      → message_of_call viem codec inbox ≡ some m
      → IsKeyed m
  unfolding message_of_call
  message_of_call-IsKeyed decoder inbox m on h = elim (Option-cases inbox.input) [
    | inl missing ↦ absurd (none≢some (rw missing at h))
    | inr (input, given_input) ↦ elim (Option-cases inbox.from) [
      | inl missing ↦ absurd (none≢some (rw (given_input, missing) at h))
      | inr (from, given_from) ↦ elim (Bool-cases (not (is_handled viem codec input))) [
        | inl skipped ↦ absurd (none≢some (rw (given_input, given_from, skipped) at h))
        | inr handled ↦ elim (Option-cases (sender_alias viem codec from)) [
          | inl failed ↦ absurd (none≢some (rw (given_input, given_from, handled, failed) at h))
          | inr (l2_alias, aliased) ↦
              decoded_message-IsKeyed decoder inbox.destination_chain_id l2_alias
                (codec.decode_inbox_call input) m on (decoder.inbox input)
                (rw (given_input, given_from, handled, aliased) at h)
        ]
      ]
    ]
  ]

  get_arbitrum_destination_chain_id-IsSupported :
      (inbox : String) (chain : ℕ)
      → get_arbitrum_destination_chain_id viem codec inbox ≡ some chain
      → IsSupported chain
  unfolding get_arbitrum_destination_chain_id
  get_arbitrum_destination_chain_id-IsSupported inbox chain h =
      let lowered = viem.to_lower_case inbox in
      elim (Bool-cases ("0x4dbd4fc535ac27206064b68ffcf827b0a60bab3f" == lowered)) [
        | inl one ↦ inl (sym (some-injective (rw one at h)))
        | inr not_one ↦
            elim (Bool-cases ("0x1a07cc4bd17e0118bdb54d70990d2158abad7a2d" == lowered)) [
              | inl robinhood ↦ inr (sym (some-injective (rw (not_one, robinhood) at h)))
              | inr unknown ↦ absurd (none≢some (rw (not_one, unknown) at h))
            ]
      ]

  pub chain_of-IsSupported :
      (to : Option String) (chain : ℕ) → chain_of viem codec to ≡ some chain → IsSupported chain
  chain_of-IsSupported none chain h = absurd (none≢some h)
  chain_of-IsSupported (some to) chain h = get_arbitrum_destination_chain_id-IsSupported to chain h
