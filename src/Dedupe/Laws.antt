-- ===== src/Dedupe/Laws.antt =====
-- What is kept, once each, and in which order.
use governance_seatbelt.Prelude.{
  List, [], ◌∷◌, ◌++◌, true, false, ◌&&◌, not, Eq, eq_iff, eq_refl, ◌≡◌, refl, arith, Bool-cases,
  inl, inr, All, ap, ◌∙◌, sym,
}
use governance_seatbelt.Dedupe.{has, dedupe_from, dedupe}

module _ {A : Type 0} ⦃e : Eq A⦄ where
  -- No member occurs twice.
  abbrev pub IsDeduped : List A → Type 0
  IsDeduped [] = Unit
  IsDeduped (x ∷ xs) = (has x xs ≡ false) × IsDeduped xs

  dedupe_from-old :
      (x : A) (seen xs : List A)
      → has x seen ≡ true
      → dedupe_from seen (x ∷ xs) ≡ dedupe_from seen xs
  unfolding dedupe_from
  dedupe_from-old x seen xs h = ground arith

  dedupe_from-new :
      (x : A) (seen xs : List A)
      → has x seen ≡ false
      → dedupe_from seen (x ∷ xs) ≡ x ∷ dedupe_from (x ∷ seen) xs
  unfolding dedupe_from
  dedupe_from-new x seen xs h = ground arith

  has-dedupe_from :
      (a : A) (seen xs : List A) → has a (dedupe_from seen xs) ≡ (has a xs && not (has a seen))
  has-dedupe_from a seen [] = unfold dedupe_from in refl
  has-dedupe_from a seen (x ∷ xs) = elim (Bool-cases (has x seen)) [
    | inl old ↦
        rw (dedupe_from-old x seen xs old) (ground (arith, has-dedupe_from a seen xs, eq_iff x a))
    | inr new ↦
        rw (dedupe_from-new x seen xs new)
          (ground (arith, has-dedupe_from a (x ∷ seen) xs, eq_iff x a))
  ]

  -- Deduplication keeps the members.
  pub has-dedupe : (a : A) (xs : List A) → has a (dedupe xs) ≡ has a xs
  unfolding dedupe
  has-dedupe a xs = ground (arith, has-dedupe_from a [] xs)

  dedupe_from-IsDeduped : (seen xs : List A) → IsDeduped (dedupe_from seen xs)
  dedupe_from-IsDeduped seen [] = unfold dedupe_from in tt
  dedupe_from-IsDeduped seen (x ∷ xs) = elim (Bool-cases (has x seen)) [
    | inl old ↦ rw (dedupe_from-old x seen xs old) (dedupe_from-IsDeduped seen xs)
    | inr new ↦ rw (dedupe_from-new x seen xs new) (
      ground (arith, has-dedupe_from x (x ∷ seen) xs, eq_refl x),
      dedupe_from-IsDeduped (x ∷ seen) xs,
    )
  ]

  pub dedupe-IsDeduped : (xs : List A) → IsDeduped (dedupe xs)
  unfolding dedupe
  dedupe-IsDeduped xs = dedupe_from-IsDeduped [] xs

  -- A list without repetitions is left as it is.
  dedupe_from_of_fresh :
      (seen xs : List A)
      → IsDeduped xs
      → All (λ x. has x seen ≡ false) xs
      → dedupe_from seen xs ≡ xs
  dedupe_from_of_fresh seen [] d f = unfold dedupe_from in refl
  dedupe_from_of_fresh seen (x ∷ xs) (n, d) (f, fs) =
      dedupe_from-new x seen xs f
      ∙ ap (λ t. x ∷ t) (dedupe_from_of_fresh (x ∷ seen) xs d (still x seen xs n fs))
    where
      still :
          (x : A) (seen xs : List A)
          → has x xs ≡ false
          → All (λ y. has y seen ≡ false) xs
          → All (λ y. has y (x ∷ seen) ≡ false) xs
      still x seen [] n f = tt
      still x seen (y ∷ ys) n (f, fs) =
          (ground (arith, eq_iff x y, eq_iff y x), still x seen ys (ground arith) fs)

  -- Deduplicating a merged list once more changes nothing: merging is associative.
  dedupe_from-append :
      (seen xs ys : List A)
      → dedupe_from seen (dedupe_from seen xs ++ ys) ≡ dedupe_from seen (xs ++ ys)
  dedupe_from-append seen [] ys = unfold dedupe_from in refl
  dedupe_from-append seen (x ∷ xs) ys = elim (Bool-cases (has x seen)) [
    | inl old ↦
        rw (dedupe_from-old x seen xs old)
          (dedupe_from-append seen xs ys ∙ sym (dedupe_from-old x seen (xs ++ ys) old))
    | inr new ↦ rw (dedupe_from-new x seen xs new) (
        dedupe_from-new x seen _ new
        ∙ ap (λ t. x ∷ t) (dedupe_from-append (x ∷ seen) xs ys)
        ∙ sym (dedupe_from-new x seen (xs ++ ys) new))
  ]

  pub dedupe-append_left : (xs ys : List A) → dedupe (dedupe xs ++ ys) ≡ dedupe (xs ++ ys)
  unfolding dedupe
  dedupe-append_left xs ys = dedupe_from-append [] xs ys
