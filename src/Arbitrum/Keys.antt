-- ===== src/Arbitrum/Keys.antt =====
-- utils/bridges/arbitrum.ts: the keys of the messages, and which messages have the same one.
use Prim.Native.String.{count}
use text.Mathlib.TextLemmas.{append_assoc, append_inj, append_cancel_left}
use governance_seatbelt.Prelude.{
  ℕ, String, Bool, true, ◌≡◌, refl, arith, ap, sym, ◌∙◌, ◌==◌, ◌&&◌, string_eq, nat_eq, eq_iff,
  false≢true, inl, inr, ◌⊎◌,
}
use governance_seatbelt.Text.{concat, to_decimal}
use governance_seatbelt.Arbitrum.{Message, message_key}

-- Arbitrum One and Robinhood Chain.
abbrev pub IsSupported : ℕ → Type 0
IsSupported chain = (chain ≡ 42161) ⊎ (chain ≡ 4663)

-- What holds of a message that is read: its key names its chain, its target and its calldata.
pub record IsKeyed (m : Message) : Type 0 where
  pub on_chain : IsSupported m.destination_chain_id
  pub to_address : count m.call.l2_target_address ≡ 42
  pub keyed :
      m.key ≡ message_key m.destination_chain_id m.call.l2_target_address m.call.l2_input_data

-- Texts after the two chains' ids differ.
chains_differ : (x y : String) → concat (to_decimal 42161) x ≡ concat (to_decimal 4663) y → ⊥
unfolding to_decimal
chains_differ x y e =
    let same =
      append_inj {s₁ = "42"} {s₂ = "46"}
        (sym (append_assoc "42" "161" x) ∙ e ∙ append_assoc "46" "63" y) refl in
    false≢true ((eq_iff "42" "46").1 same.0)

same_chain :
    {c d : ℕ} (x y : String)
    → IsSupported c
    → IsSupported d
    → concat (to_decimal c) x ≡ concat (to_decimal d) y
    → (c ≡ d) × (x ≡ y)
same_chain x y (inl c) (inl d) e =
    (c ∙ sym d, append_cancel_left (to_decimal 42161) x y (rw (c, d) at e))
same_chain x y (inl c) (inr d) e = absurd (chains_differ x y (rw (c, d) at e))
same_chain x y (inr c) (inl d) e = absurd (chains_differ y x (sym (rw (c, d) at e)))
same_chain x y (inr c) (inr d) e =
    (c ∙ sym d, append_cancel_left (to_decimal 4663) x y (rw (c, d) at e))

-- Messages with the same key have the same chain, target and calldata.
pub key-injective :
    {m n : Message}
    → IsKeyed m
    → IsKeyed n
    → m.key ≡ n.key
    → (m.destination_chain_id ≡ n.destination_chain_id)
      × (m.call.l2_target_address ≡ n.call.l2_target_address)
      × (m.call.l2_input_data ≡ n.call.l2_input_data)
key-injective {m} {n} h k e =
    let (chain, rest) = same_chain _ _ h.on_chain k.on_chain (sym h.keyed ∙ e ∙ k.keyed) in
    let (target, after) =
      append_inj (append_cancel_left "-" _ _ rest) (h.to_address ∙ sym k.to_address) in
    (chain, target, append_cancel_left "-" _ _ after)

-- A message to a target on a chain, with a calldata.
abbrev pub is_message_to : ℕ → String → String → Message → Bool
is_message_to chain target input m =
    m.destination_chain_id == chain
    && (m.call.l2_target_address == target && m.call.l2_input_data == input)

is_message_to-true :
    (chain : ℕ) (target input : String) (m : Message)
    → is_message_to chain target input m ≡ true
    → (m.destination_chain_id ≡ chain)
      × (m.call.l2_target_address ≡ target)
      × (m.call.l2_input_data ≡ input)
is_message_to-true chain target input m h =
    ground (arith, eq_iff m.call.l2_target_address target, eq_iff m.call.l2_input_data input)

-- Two messages to the same have the same key,
pub same_key :
    (chain : ℕ) (target input : String) {m n : Message}
    → IsKeyed m
    → IsKeyed n
    → is_message_to chain target input m ≡ true
    → is_message_to chain target input n ≡ true
    → m.key ≡ n.key
same_key chain target input {m} {n} h k p q =
    let (a, b, c) = is_message_to-true chain target input m p in
    let (a', b', c') = is_message_to-true chain target input n q in
    h.keyed
    ∙ ap (λ x. message_key x m.call.l2_target_address m.call.l2_input_data) (a ∙ sym a')
    ∙ ap (λ x. message_key n.destination_chain_id x m.call.l2_input_data) (b ∙ sym b')
    ∙ ap (λ x. message_key n.destination_chain_id n.call.l2_target_address x) (c ∙ sym c')
    ∙ sym k.keyed

-- and two with the same key are to the same.
pub same_answer :
    (chain : ℕ) (target input : String) {m n : Message}
    → IsKeyed m
    → IsKeyed n
    → m.key ≡ n.key
    → is_message_to chain target input m ≡ is_message_to chain target input n
same_answer chain target input h k e = let (a, b, c) = key-injective h k e in rw (a, b, c) refl
