-- ===== src/State/Merge.antt =====
-- Merging overrides: each field of the result is the last write to it, and overrides win.
use governance_seatbelt.Prelude.{
  String, Option, none, [], ◌∷◌, true, if◌then◌else◌, ◌≡◌, refl, or_else, ◌==◌, ap, arith, eq_iff,
  ok, All, or_else_assoc, sym, ◌∙◌, Bool-cases, inl, inr, string_eq, is_some, Option-cases,
  ok-injective, subst,
}
use governance_seatbelt.Dict.{lookup, IsDistinct}
use governance_seatbelt.Dict.Laws.{put-IsDistinct}
use governance_seatbelt.State.{
  Account, StateObjects, no_account, merge_account, drop_empty_balance, storage_of, account_at,
  normalize_from, merge_from,
}
use governance_seatbelt.State.View.{
  Field, nonce, balance, code, slot, read, view, write, last_write, HasDistinctSlots,
  put-HasDistinctSlots, account_at-IsDistinct, overlay-IsDistinct, read-overlay, view-put,
}

-- Every address of the overrides is one that `getAddress` takes.
abbrev pub AllValid : (String → Option String) → StateObjects → Type 0
AllValid get_address = All (λ e. is_some (get_address e.0) ≡ true)

pub read-write : (f : Field) (a : Account) → read f (drop_empty_balance a) ≡ write f a
read-write nonce a = refl
read-write balance a = refl
read-write code a = refl
read-write (slot key) a = refl

-- One round of a merging loop.
pub view-merge_account :
    (f : Field) (k address : String) (next : Account) (s : StateObjects)
    → HasDistinctSlots s
    → IsDistinct (storage_of next)
    → view f address (merge_account k next s)
      ≡ or_else (if k == address then read f next else none) (view f address s)
view-merge_account f k address next s ds d = elim (Bool-cases (k == address)) [
  | inl same ↦ rw view-put (
      rw same (
        read-overlay f (account_at k s) next (account_at-IsDistinct k s ds) d
        ∙ ap (λ a. or_else (read f next) (view f a s)) ((eq_iff k address).0 same)))
  | inr other ↦ rw view-put (rw other)
]

module _ (get_address : String → Option String) where
  pub normalize_from_lem :
      (f : Field) (address : String) (acc l : StateObjects) {s : StateObjects}
      → HasDistinctSlots acc
      → HasDistinctSlots l
      → normalize_from get_address acc l ≡ ok s
      → HasDistinctSlots s
        × (view f address s ≡ or_else (last_write get_address f address l) (view f address acc))
  unfolding normalize_from last_write
  normalize_from_lem f address acc [] {s} da dl e =
      let same : acc ≡ s = ok-injective e in
      (subst HasDistinctSlots same da, ap (view f address) (sym same))
  normalize_from_lem f address acc ((k, next) ∷ l) {s} da (d, dl) e =
      elim (Option-cases (get_address k)) [
        | inl bad ↦ ground arith
        | inr (a, good) ↦
            let next' = drop_empty_balance next in
            let acc' = merge_account a (drop_empty_balance next) acc in
            let e' : normalize_from get_address acc' l ≡ ok s = ground arith in
            let (ds, v) =
              normalize_from_lem f address acc' l {s = s}
                (put-HasDistinctSlots a _ acc (overlay-IsDistinct _ next') da) dl e' in
            (
              ds,
              rw good (
                  v
                  ∙ ap (or_else (last_write get_address f address l))
                      (rw (view-merge_account f a address next' acc da d, read-write) refl)
                  ∙ sym (or_else_assoc (last_write get_address f address l) _ _)),
            )
      ]

  pub normalize_from-IsDistinct :
      (acc l : StateObjects) {s : StateObjects}
      → IsDistinct acc
      → normalize_from get_address acc l ≡ ok s
      → IsDistinct s
  unfolding normalize_from
  normalize_from-IsDistinct acc [] h e = subst (λ s. IsDistinct s) (ok-injective e) h
  normalize_from-IsDistinct acc ((k, next) ∷ l) {s} h e = elim (Option-cases (get_address k)) [
    | inl bad ↦ ground arith
    | inr (a, good) ↦
        normalize_from-IsDistinct (merge_account a (drop_empty_balance next) acc) l {s = s}
          (put-IsDistinct a _ acc h) (ground arith)
  ]

  -- Normalising fails on an invalid address only.
  pub normalize_from_total :
      (acc l : StateObjects)
      → AllValid get_address l
      → (s : StateObjects) × (normalize_from get_address acc l ≡ ok s)
  unfolding normalize_from
  normalize_from_total acc [] h = (acc, refl)
  normalize_from_total acc ((k, next) ∷ l) (v, h) = elim (Option-cases (get_address k)) [
    | inl bad ↦ ground arith
    | inr (a, good) ↦
        rw good (normalize_from_total (merge_account a (drop_empty_balance next) acc) l h)
  ]

  pub normalize_from_valid :
      (acc l : StateObjects) {s : StateObjects}
      → normalize_from get_address acc l ≡ ok s
      → AllValid get_address l
  unfolding normalize_from
  normalize_from_valid acc [] e = tt
  normalize_from_valid acc ((k, next) ∷ l) {s} e = elim (Option-cases (get_address k)) [
    | inl bad ↦ ground arith
    | inr (a, good) ↦ (
      ap is_some good,
      normalize_from_valid (merge_account a (drop_empty_balance next) acc) l {s = s} (ground arith),
    )
  ]

pub read-no_account : (f : Field) → read f no_account ≡ none
unfolding lookup
read-no_account nonce = refl
read-no_account balance = refl
read-no_account code = refl
read-no_account (slot key) = refl

pub view-cons :
    (f : Field) (k address : String) (a : Account) (s : StateObjects)
    → view f address ((k, a) ∷ s) ≡ (if k == address then read f a else view f address s)
unfolding lookup
view-cons f k address a s = elim (Bool-cases (k == address)) [
  | inl same ↦ rw same
  | inr other ↦ rw other
]

pub view_of_fresh :
    (f : Field) (address : String) (s : StateObjects)
    → lookup address s ≡ none
    → view f address s ≡ none
view_of_fresh f address s h = rw h (read-no_account f)

pub view-merge_from :
    (f : Field) (address : String) (merged l : StateObjects)
    → HasDistinctSlots merged
    → HasDistinctSlots l
    → IsDistinct l
    → view f address (merge_from merged l) ≡ or_else (view f address l) (view f address merged)
unfolding merge_from
view-merge_from f address merged [] d dl h =
    let none_here : view f address [] ≡ none = view_of_fresh f address [] (unfold lookup in refl) in
    rw none_here
view-merge_from f address merged ((k, next) ∷ l) d (dn, dl) (fresh, h) =
    view-merge_from f address (merge_account k next merged) l
      (put-HasDistinctSlots k _ merged (overlay-IsDistinct _ next) d) dl h
    ∙ ap (or_else (view f address l)) (view-merge_account f k address next merged d dn)
    ∙ override_wins
  where
    override_wins :
        or_else
          (view f address l)
          (or_else (if k == address then read f next else none) (view f address merged))
        ≡ or_else (view f address ((k, next) ∷ l)) (view f address merged)
    override_wins = elim (Bool-cases (k == address)) [
      | inl same ↦
          rw (view-cons, same)
            (rw (view_of_fresh f address l (rw (← (eq_iff k address).0 same) fresh)))
      | inr other ↦ rw (view-cons, other)
    ]
