-- ===== src/State/View.antt =====
-- What a simulation reads from state overrides: one field of one account.
use governance_seatbelt.Prelude.{
  ℕ, String, Option, none, some, [], ◌∷◌, Bool, false, if◌then◌else◌, ◌≡◌, refl, or_else, ◌==◌, ap,
  All, ◌∙◌, Bool-cases, inl, inr, string_eq,
}
use governance_seatbelt.Dict.{lookup, put, spread, IsDistinct}
use governance_seatbelt.Dict.Laws.{lookup-put, lookup-spread, lookup-spread_nil, spread-IsDistinct}
use governance_seatbelt.State.{Account, StateObjects, storage_of, overlay, non_empty, account_at}

pub data Field : Type 0 where
  nonce balance code : Field
  slot : String → Field

abbrev pub FieldType : Field → Type 0
FieldType nonce = ℕ
FieldType balance = String
FieldType code = String
FieldType (slot key) = String

abbrev pub read : (f : Field) → Account → Option (FieldType f)
read nonce a = a.nonce
read balance a = a.balance
read code a = a.code
read (slot key) a = lookup key (storage_of a)

abbrev pub view : (f : Field) → String → StateObjects → Option (FieldType f)
view f address s = read f (account_at address s)

-- What an override writes: an empty balance is no override.
abbrev pub write : (f : Field) → Account → Option (FieldType f)
write nonce a = a.nonce
write balance a = non_empty a.balance
write code a = a.code
write (slot key) a = lookup key (storage_of a)

abbrev pub same_address : Option String → String → Bool
same_address none a = false
same_address (some b) a = b == a

-- The last write to the account, whichever spelling of its address the entry has.
unfoldable pub last_write :
    (String → Option String) → (f : Field) → String → StateObjects → Option (FieldType f)
last_write get_address f address [] = none
last_write get_address f address ((spelled, state) ∷ rest) =
    or_else (last_write get_address f address rest)
      (if same_address (get_address spelled) address then write f state else none)

-- Overrides that come from JavaScript objects: no account has a storage slot twice.
abbrev pub HasDistinctSlots : StateObjects → Type 0
HasDistinctSlots = All (λ e. IsDistinct (storage_of e.1))

pub put-HasDistinctSlots :
    (k : String) (a : Account) (s : StateObjects)
    → IsDistinct (storage_of a)
    → HasDistinctSlots s
    → HasDistinctSlots (put k a s)
unfolding put
put-HasDistinctSlots k a [] h d = (h, tt)
put-HasDistinctSlots k a ((j, b) ∷ s) h (d, ds) = elim (Bool-cases (j == k)) [
  | inl same ↦ rw same (h, ds)
  | inr other ↦ rw other (d, put-HasDistinctSlots k a s h ds)
]

pub account_at-IsDistinct :
    (k : String) (s : StateObjects) → HasDistinctSlots s → IsDistinct (storage_of (account_at k s))
unfolding lookup
account_at-IsDistinct k [] d = tt
account_at-IsDistinct k ((j, b) ∷ s) (d, ds) = elim (Bool-cases (j == k)) [
  | inl same ↦ rw same d
  | inr other ↦ rw other (account_at-IsDistinct k s ds)
]

pub overlay-IsDistinct : (a b : Account) → IsDistinct (storage_of (overlay a b))
unfolding overlay
overlay-IsDistinct a b =
    spread-IsDistinct (spread [] (storage_of a)) (storage_of b)
      (spread-IsDistinct [] (storage_of a) tt)

-- The fields of the override win.
pub read-overlay :
    (f : Field) (current next : Account)
    → IsDistinct (storage_of current)
    → IsDistinct (storage_of next)
    → read f (overlay current next) ≡ or_else (read f next) (read f current)
unfolding overlay
read-overlay nonce current next c n = refl
read-overlay balance current next c n = refl
read-overlay code current next c n = refl
read-overlay (slot key) current next c n =
    lookup-spread key (spread [] (storage_of current)) (storage_of next) n
    ∙ ap (or_else (lookup key (storage_of next))) (lookup-spread_nil key (storage_of current) c)

pub view-put :
    (f : Field) (k address : String) (a : Account) (s : StateObjects)
    → view f address (put k a s) ≡ (if k == address then read f a else view f address s)
view-put f k address a s = elim (Bool-cases (k == address)) [
  | inl same ↦ rw same (rw lookup-put (rw same))
  | inr other ↦ rw other (rw lookup-put (rw other))
]
