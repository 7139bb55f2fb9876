-- ===== src/Derived/Extract/Laws.antt =====
-- What the extracted overrides say: the last write to each slot, the last code and balance.
use governance_seatbelt.Prelude.{
  String, Option, none, some, List, [], ◌∷◌, ◌++◌, if◌then◌else◌, ◌≡◌, refl, or_else, ◌==◌,
  from_option, ap, arith, eq_iff, ok, or_else_assoc, sym, ◌∙◌, Bool-cases, inl, inr, string_eq,
  >>=-eq-ok, Option-cases, ok-injective, or_else-none,
}
use governance_seatbelt.Dict.{lookup, put}
use governance_seatbelt.Dict.Laws.{lookup-put}
use governance_seatbelt.State.{Account, StateObjects, account_at, non_empty, merge_state_objects}
use governance_seatbelt.State.View.{
  Field, FieldType, nonce, balance, code, slot, read, view, same_address, view-put,
  HasDistinctSlots, last_write,
}
use governance_seatbelt.State.Merge.{view_of_fresh}
use governance_seatbelt.State.Laws.{view-merge_state_objects}
use governance_seatbelt.Simulation.{Contract, RawElement, StateDiff, Simulation}
use governance_seatbelt.Derived.Extract.{
  note_contract, note_write, update_accounts, add_contracts, add_writes, add_diffs, extract_from,
  extract_state_overrides,
}

-- What a listed contract and a raw state difference say about a field.
abbrev pub contract_says : (f : Field) → Contract → Option (FieldType f)
contract_says nonce c = none
contract_says balance c = non_empty c.balance
contract_says code c = non_empty c.deployed_bytecode
contract_says (slot key) c = none

abbrev pub raw_says : (f : Field) → RawElement → Option (FieldType f)
raw_says nonce r = none
raw_says balance r = none
raw_says code r = none
raw_says (slot key) r = if r.key == key then some r.dirty else none

read-note_contract :
    (f : Field) (c : Contract) (a : Account)
    → read f (note_contract c a) ≡ or_else (contract_says f c) (read f a)
unfolding note_contract
read-note_contract nonce c a = refl
read-note_contract balance c a = refl
read-note_contract code c a = refl
read-note_contract (slot key) c a = refl

read-note_write :
    (f : Field) (r : RawElement) (a : Account)
    → read f (note_write r a) ≡ or_else (raw_says f r) (read f a)
unfolding note_write
read-note_write nonce r a = refl
read-note_write balance r a = refl
read-note_write code r a = refl
read-note_write (slot key) r a = rw lookup-put (ground arith)

module _ (get_address : String → Option String) where
  -- The last entry of a list that says something about a field of the account at `address`.
  abbrev pub last_said :
      {E : Type 0} (address_of : E → String) (f : Field) (says : E → Option (FieldType f))
      → String
      → List E
      → Option (FieldType f)
  last_said address_of f says address [] = none
  last_said address_of f says address (e ∷ es) =
      or_else (last_said address_of f says address es)
        (if same_address (get_address (address_of e)) address then says e else none)

  abbrev pub raw_elements : List StateDiff → List RawElement
  raw_elements [] = []
  raw_elements (d ∷ ds) = from_option [] d.raw ++ raw_elements ds

  view-update_accounts :
      {E : Type 0} (address_of : E → String) (update : E → Account → Account) (f : Field)
      (says : E → Option (FieldType f))
      → ((e : E) (a : Account) → read f (update e a) ≡ or_else (says e) (read f a))
      → (address : String) (acc : StateObjects) (es : List E) {s : StateObjects}
      → update_accounts get_address address_of update acc es ≡ ok s
      → view f address s ≡ or_else (last_said address_of f says address es) (view f address acc)
  unfolding update_accounts
  view-update_accounts address_of update f says law address acc [] h =
      ap (view f address) (sym (ok-injective h))
  view-update_accounts address_of update f says law address acc (e ∷ es) {s} h =
      elim (Option-cases (get_address (address_of e))) [
        | inl bad ↦ ground arith
        | inr (a, good) ↦ rw good (
            view-update_accounts address_of update f says law address
              (put a (update e (account_at a acc)) acc) es {s = s} (ground arith)
            ∙ ap (or_else (last_said address_of f says address es)) (one_round a)
            ∙ sym (or_else_assoc (last_said address_of f says address es) _ _))
      ]
    where
      one_round :
          (a : String)
          → view f address (put a (update e (account_at a acc)) acc)
            ≡ or_else (if a == address then says e else none) (view f address acc)
      one_round a = elim (Bool-cases (a == address)) [
        | inl same ↦
            rw (view-put, same)
              (law e (account_at a acc)
                ∙ ap (λ k. or_else (says e) (view f k acc)) ((eq_iff a address).0 same))
        | inr other ↦ rw (view-put, other)
      ]

  last_said-append :
      {E : Type 0} (address_of : E → String) (f : Field) (says : E → Option (FieldType f))
      (address : String) (xs ys : List E)
      → last_said address_of f says address (xs ++ ys)
        ≡ or_else (last_said address_of f says address ys) (last_said address_of f says address xs)
  last_said-append address_of f says address [] ys = sym (or_else-none _)
  last_said-append address_of f says address (x ∷ xs) ys =
      rw (last_said-append address_of f says address xs ys)
        (or_else_assoc (last_said address_of f says address ys) _ _)

  view-add_diffs :
      (f : Field) (address : String) (acc : StateObjects) (diffs : List StateDiff)
      {s : StateObjects}
      → add_diffs get_address acc diffs ≡ ok s
      → view f address s
        ≡ or_else
            (last_said (λ r. r.address) f (raw_says f) address (raw_elements diffs))
            (view f address acc)
  unfolding add_diffs
  view-add_diffs f address acc [] h = ap (view f address) (sym (ok-injective h))
  view-add_diffs f address acc (d ∷ ds) {s} h =
      let (next, done, rest) = >>=-eq-ok (add_writes get_address acc (from_option [] d.raw)) _ h in
      view-add_diffs f address next ds rest
      ∙ ap (or_else (last_said (λ r. r.address) f (raw_says f) address (raw_elements ds))) (
          view-update_accounts (λ r. r.address) note_write f (raw_says f) (read-note_write f)
            address acc (from_option [] d.raw) done)
      ∙ sym
          (or_else_assoc (last_said (λ r. r.address) f (raw_says f) address (raw_elements ds)) _ _)
      ∙ ap (λ w. or_else w (view f address acc))
          (sym (
            last_said-append (λ r. r.address) f (raw_says f) address (from_option [] d.raw)
              (raw_elements ds)))

  -- What a simulation reports about a field: its post-state if it has one, else the last state
  -- difference, else the last listed contract.
  abbrev pub reported :
      (f : Field) → String → Option StateObjects → Simulation → Option (FieldType f)
  reported f address (some post_state) sim = last_write get_address f address post_state
  reported f address none sim =
      or_else
        (last_said (λ r. r.address) f (raw_says f) address
          (raw_elements (from_option [] sim.state_diff)))
        (last_said (λ c. c.address) f (contract_says f) address (from_option [] sim.contracts))

  view-extract_from :
      (f : Field) (address : String) (post : Option StateObjects) (sim : Simulation)
      {s : StateObjects}
      → HasDistinctSlots (from_option [] post)
      → extract_from get_address post sim ≡ ok s
      → view f address s ≡ reported f address post sim
  unfolding extract_from last_write
  view-extract_from f address (some p) sim d h =
      let (m, merged, e) = >>=-eq-ok (merge_state_objects get_address (some p) none) _ h in
      rw (← ok-injective e)
        (view-merge_state_objects get_address f address (some p) none {m = m} d tt merged)
  view-extract_from f address none sim {s} d h =
      let (o, done, rest) =
        >>=-eq-ok (add_contracts get_address [] (from_option [] sim.contracts))
          (λ o. add_diffs get_address o (from_option [] sim.state_diff)) h in
      view-add_diffs f address o (from_option [] sim.state_diff) rest
      ∙ ap
          (or_else (
            last_said (λ r. r.address) f (raw_says f) address
              (raw_elements (from_option [] sim.state_diff))))
          (view-update_accounts (λ c. c.address) note_contract f (contract_says f)
              (read-note_contract f) address [] (from_option [] sim.contracts) done
            ∙ rw (view_of_fresh f address [] (unfold lookup in refl)) (or_else-none _))

  -- Whenever the extraction succeeds, each field of each account reads as the simulation reports it:
  -- by the last write of its post-state if it has one; else by the last raw state difference of that
  -- slot; else, for a balance or a code, by the last listed contract that has one. A post-state, if
  -- there is one, lists no storage slot twice.
  pub view-extract_state_overrides :
      (f : Field) (address : String) (sim : Simulation) {s : StateObjects}
      → HasDistinctSlots (from_option [] sim.post_state)
      → extract_state_overrides get_address sim ≡ ok s
      → view f address s ≡ reported f address sim.post_state sim
  unfolding extract_state_overrides
  view-extract_state_overrides f address sim {s} d h =
      view-extract_from f address sim.post_state sim {s = s} d h
