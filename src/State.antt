-- ===== src/State.antt =====
-- utils/derived-state.ts, lines 1 to 78: account overrides and how they are merged.
pub mod View
pub mod Merge
pub mod Laws
use governance_seatbelt.Prelude.{
  ℕ, String, Option, none, some, List, [], ◌∷◌, Bool, true, false, if◌then◌else◌, Result, ok, throw,
  invalid_address, or_throw, ◌>>=◌, from_option, ◌==◌, or_else, string_eq,
}
use governance_seatbelt.Dict.{Dict, lookup, put, spread}

-- Storage slots and their values, as hex texts.
abbrev pub Storage : Type 0
Storage = Dict String String

-- `StateObject` of types.d.ts. An absent field is `none`.
pub record Account : Type 0 where
  pub nonce : Option ℕ
  pub balance : Option String
  pub code : Option String
  pub storage : Option Storage

abbrev pub StateObjects : Type 0
StateObjects = Dict String Account

-- `{}`
abbrev pub no_account : Account
no_account = record { nonce = none; balance = none; code = none; storage = none }

abbrev pub storage_of : Account → Storage
storage_of a = from_option [] a.storage

-- `{ ...current, ...next, storage: { ...(current.storage ?? {}), ...(next.storage ?? {}) } }`
unfoldable pub overlay : Account → Account → Account
overlay current next = record {
  nonce = or_else next.nonce current.nonce;
  balance = or_else next.balance current.balance;
  code = or_else next.code current.code;
  storage = some (spread (spread [] (storage_of current)) (storage_of next));
}

-- `typeof balance === 'string' && balance.length > 0 ? { balance } : {}`
unfoldable pub non_empty : Option String → Option String
non_empty none = none
non_empty (some b) = if b == "" then none else some b

abbrev pub account_at : String → StateObjects → Account
account_at address state = from_option no_account (lookup address state)

-- `merged[address] = { ...current, ...next, … }` where `current = merged[address] ?? {}`
abbrev pub merge_account : String → Account → StateObjects → StateObjects
merge_account address next merged = put address (overlay (account_at address merged) next) merged

-- `const { balance, ...rest } = state`, and the balance again if it is not empty
abbrev pub drop_empty_balance : Account → Account
drop_empty_balance state = record state { balance = non_empty state.balance }

module _ (get_address : String → Option String) where
  -- The loop of `normalizeStateObjects`.
  unfoldable pub normalize_from : StateObjects → StateObjects → Result StateObjects
  normalize_from normalized [] = ok normalized
  normalize_from normalized ((address, state) ∷ rest) = do
    normalized_address ← or_throw (invalid_address address) (get_address address)
    normalize_from (merge_account normalized_address (drop_empty_balance state) normalized) rest

  unfoldable pub normalize_state_objects : Option StateObjects → Result (Option StateObjects)
  normalize_state_objects none = ok none
  normalize_state_objects (some state_objects) = do
    normalized ← normalize_from [] state_objects
    ok (some normalized)

-- The loop of `mergeStateObjects`.
unfoldable pub merge_from : StateObjects → StateObjects → StateObjects
merge_from merged [] = merged
merge_from merged ((address, override_state) ∷ rest) =
    merge_from (merge_account address override_state merged) rest

unfoldable pub merge_normalized : Option StateObjects → Option StateObjects → Option StateObjects
merge_normalized none none = none
merge_normalized none (some overrides) = some overrides
merge_normalized (some base) none = some base
merge_normalized (some base) (some overrides) = some (merge_from base overrides)

unfoldable pub merge_state_objects :
    (get_address : String → Option String)
    → Option StateObjects
    → Option StateObjects
    → Result (Option StateObjects)
merge_state_objects get_address base overrides = do
  normalized_base ← normalize_state_objects get_address base
  normalized_overrides ← normalize_state_objects get_address overrides
  ok (merge_normalized normalized_base normalized_overrides)
