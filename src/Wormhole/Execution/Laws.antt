-- ===== src/Wormhole/Execution/Laws.antt =====
-- What the preparation of Wormhole jobs leaves in the committed state and in the runtime store.
use governance_seatbelt.Prelude.{
  String, Option, none, some, [], true, if◌then◌else◌, ◌==◌, string_eq, eq_iff, from_option, ◌≡◌,
  refl, ◌∙◌, subst, sym, ap, arith, Bool-cases, Option-cases, inl, inr,
}
use governance_seatbelt.Dict.{lookup, put, remove}
use governance_seatbelt.Dict.Laws.{lookup-remove}
use governance_seatbelt.State.{Account, StateObjects, account_at, no_account}
use governance_seatbelt.State.View.{
  Field, FieldType, nonce, balance, code, slot, read, view, view-put,
}
use governance_seatbelt.Wormhole.Receiver.{key_eq}
use governance_seatbelt.Wormhole.Execution.{
  with_core_stub, strip_core_code, keep_persisted, is_empty,
}

-- A field as it reads once the code at the core is gone.
abbrev pub without_code : (f : Field) → Option (FieldType f) → Option (FieldType f)
without_code nonce v = v
without_code balance v = v
without_code code v = none
without_code (slot key) v = v

read-persisted :
    (f : Field) (a : Account) → read f (record a { code = none }) ≡ without_code f (read f a)
read-persisted nonce a = refl
read-persisted balance a = refl
read-persisted code a = refl
read-persisted (slot key) a = refl

read-empty : (f : Field) (a : Account) → is_empty a ≡ true → read f no_account ≡ read f a
unfolding lookup
read-empty nonce a h = ground arith
read-empty balance a h = ground arith
read-empty code a h = ground arith
read-empty (slot key) a h = ground arith

-- A field of the core reads without the simulation-only code, any other as before.
abbrev pub stripped : (f : Field) → String → String → StateObjects → Option (FieldType f)
stripped f core address working =
    if core == address then without_code f (view f address working) else view f address working

view-remove :
    (f : Field) (core address : String) (s : StateObjects)
    → view f address (remove core s)
      ≡ (if core == address then read f no_account else view f address s)
view-remove f core address s = elim (Bool-cases (core == address)) [
  | inl same ↦ rw same (rw lookup-remove (rw same))
  | inr other ↦ rw other (rw lookup-remove (rw other))
]

view-keep_persisted :
    (f : Field) (core address : String) (persisted : Account) (working : StateObjects)
    → view f address (keep_persisted core persisted working)
      ≡ (if core == address then read f persisted else view f address working)
view-keep_persisted f core address persisted working = elim (Bool-cases (is_empty persisted)) [
  | inl none_left ↦ rw none_left (
      view-remove f core address working
      ∙ ap (λ v. if core == address then v else view f address working)
          (read-empty f persisted none_left))
  | inr kept ↦ rw kept (view-put f core address persisted working)
]

without_code-no_account : (f : Field) → read f no_account ≡ without_code f (read f no_account)
without_code-no_account nonce = refl
without_code-no_account balance = refl
without_code-no_account code = refl
without_code-no_account (slot key) = refl

view_of_absent :
    (f : Field) (core : String) (working : StateObjects)
    → lookup core working ≡ none
    → view f core working ≡ read f no_account
view_of_absent f core working absent = rw absent

view_of_present :
    (f : Field) (core : String) (working : StateObjects) {a : Account}
    → lookup core working ≡ some a
    → view f core working ≡ read f a
view_of_present f core working present = rw present

unchanged_if :
    (f : Field) (core address : String) (working : StateObjects)
    → view f address working
      ≡ (if core == address then view f core working else view f address working)
unchanged_if f core address working = elim (Bool-cases (core == address)) [
  | inl same ↦ rw same (ap (λ a. view f a working) (sym ((eq_iff core address).0 same)))
  | inr other ↦ rw other refl
]

strip_of_absent :
    (core : String) (working : StateObjects)
    → lookup core working ≡ none
    → strip_core_code core working ≡ working
unfolding strip_core_code
strip_of_absent core working absent = rw (absent, strip_core_code) refl

strip_of_present :
    (core : String) (working : StateObjects) (a : Account)
    → lookup core working ≡ some a
    → strip_core_code core working ≡ keep_persisted core (record a { code = none }) working
unfolding strip_core_code
strip_of_present core working a present = rw (present, strip_core_code) refl

view_of_stripped :
    (f : Field) (core address : String) (working : StateObjects) (v : Option (FieldType f))
    → v ≡ without_code f (view f core working)
    → (if core == address then v else view f address working) ≡ stripped f core address working
view_of_stripped f core address working v h = elim (Bool-cases (core == address)) [
  | inr other ↦ rw other refl
  | inl same ↦
      rw same (subst (λ a. v ≡ without_code f (view f a working)) ((eq_iff core address).0 same) h)
]

view-strip_core_code :
    (f : Field) (core address : String) (working : StateObjects)
    → view f address (strip_core_code core working) ≡ stripped f core address working
view-strip_core_code f core address working = elim (Option-cases (lookup core working)) [
  | inl absent ↦
      ap (view f address) (strip_of_absent core working absent)
      ∙ unchanged_if f core address working
      ∙ view_of_stripped f core address working (view f core working) (
          view_of_absent f core working absent
          ∙ without_code-no_account f
          ∙ ap (without_code f) (sym (view_of_absent f core working absent)))
  | inr (a, present) ↦
      ap (view f address) (strip_of_present core working a present)
      ∙ view-keep_persisted f core address (record a { code = none }) working
      ∙ view_of_stripped f core address working (read f (record a { code = none }))
          (read-persisted f a ∙ ap (without_code f) (sym (view_of_present f core working present)))
]

without_code-stub :
    (f : Field) (stub : String) (a : Account)
    → without_code f (read f (record a { code = some stub })) ≡ without_code f (read f a)
without_code-stub nonce stub a = refl
without_code-stub balance stub a = refl
without_code-stub code stub a = refl
without_code-stub (slot key) stub a = refl

stripped-put :
    (f : Field) (core stub address : String) (w : StateObjects)
    → stripped f core address (put core (record (account_at core w) { code = some stub }) w)
      ≡ stripped f core address w
stripped-put f core stub address w = elim (Bool-cases (core == address)) [
  | inr other ↦
      rw other (
        view-put f core address (record (account_at core w) { code = some stub }) w ∙ rw other refl)
  | inl same ↦ rw same (
      ap (without_code f)
        (view-put f core address (record (account_at core w) { code = some stub }) w ∙ rw same refl)
      ∙ without_code-stub f stub (account_at core w)
      ∙ ap (λ a. without_code f (view f a w)) ((eq_iff core address).0 same))
]

-- A state that is simulated with the stub at the core, and then stripped for the commit, reads at
-- every field of every account as the state before, but for the code of the core, which is gone: the
-- simulation-only code never reaches a committed state, and nothing else is lost.
pub view-strip_core_code-with_core_stub :
    (f : Field) (core stub address : String) (working : Option StateObjects)
    → view f address (strip_core_code core (with_core_stub core stub working))
      ≡ stripped f core address (from_option [] working)
unfolding with_core_stub
view-strip_core_code-with_core_stub f core stub address working =
    view-strip_core_code f core address (with_core_stub core stub working)
    ∙ stripped-put f core stub address (from_option [] working)
