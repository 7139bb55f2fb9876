-- ===== src/Derived/Extract.antt =====
-- utils/derived-state.ts, lines 80 to 143: the overrides that a simulation leaves behind.
pub mod Laws
use governance_seatbelt.Prelude.{
  ℕ, String, Option, none, some, List, [], ◌∷◌, if◌then◌else◌, Result, ok, invalid_address,
  or_throw, ◌>>=◌, from_option, or_else, string_eq, nat_eq,
}
use governance_seatbelt.Dict.{Dict, lookup, put}
use governance_seatbelt.State.{
  Account, StateObjects, storage_of, non_empty, account_at, merge_state_objects,
}
use governance_seatbelt.Simulation.{Contract, RawElement, StateDiff, Simulation}

-- `{ ...state, ...(contract.balance ? { balance } : {}), ...(deployed_bytecode ? { code } : {}) }`
pub note_contract : Contract → Account → Account
note_contract contract state = record state {
  balance = or_else (non_empty contract.balance) state.balance;
  code = or_else (non_empty contract.deployed_bytecode) state.code;
}

-- `{ ...state, storage: { ...(state.storage ?? {}), [raw.key]: raw.dirty } }`
unfoldable pub note_write : RawElement → Account → Account
note_write raw state = record state { storage = some (put raw.key raw.dirty (storage_of state)) }

module _ (get_address : String → Option String) where
  -- for (const e of es) overrides[getAddress(e.address)] = update(e, overrides[…] ?? {})
  unfoldable pub update_accounts :
      {E : Type 0}
      → (E → String)
      → (E → Account → Account)
      → StateObjects
      → List E
      → Result StateObjects
  update_accounts address_of update overrides [] = ok overrides
  update_accounts address_of update overrides (e ∷ es) = do
    address ← or_throw (invalid_address (address_of e)) (get_address (address_of e))
    update_accounts address_of update
        (put address (update e (account_at address overrides)) overrides) es

  abbrev pub add_contracts : StateObjects → List Contract → Result StateObjects
  add_contracts = update_accounts (λ c. c.address) note_contract

  abbrev pub add_writes : StateObjects → List RawElement → Result StateObjects
  add_writes = update_accounts (λ r. r.address) note_write

  unfoldable pub add_diffs : StateObjects → List StateDiff → Result StateObjects
  add_diffs overrides [] = ok overrides
  add_diffs overrides (entry ∷ diffs) = do
    next ← add_writes overrides (from_option [] entry.raw)
    add_diffs next diffs

  unfoldable pub extract_from : Option StateObjects → Simulation → Result StateObjects
  extract_from (some post_state) sim = do
    merged ← merge_state_objects get_address (some post_state) none
    ok (from_option [] merged)
  extract_from none sim = do
    overrides ← add_contracts [] (from_option [] sim.contracts)
    add_diffs overrides (from_option [] sim.state_diff)

  unfoldable pub extract_state_overrides : Simulation → Result StateObjects
  unfolding extract_from
  extract_state_overrides sim = extract_from sim.post_state sim
