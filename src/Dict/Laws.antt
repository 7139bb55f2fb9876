-- ===== src/Dict/Laws.antt =====
-- What lookups see after the writes of Dict.antt.
use governance_seatbelt.Prelude.{
  or_else-none, ◌∙◌, none, some, [], ◌∷◌, Eq, ◌==◌, if◌then◌else◌, ◌≡◌, refl, or_else, arith,
  eq_iff, Bool-cases, inl, inr, ◌≢◌, ◌⊎◌, sym, eq_refl, false≢true, some-injective, none≢some,
}
use governance_seatbelt.Dict.{Dict, lookup, put, remove, spread, IsDistinct}

module _ {K V : Type 0} ⦃e : Eq K⦄ where
  pub lookup-put :
      (k j : K) (v : V) (m : Dict K V)
      → lookup j (put k v m) ≡ (if k == j then some v else lookup j m)
  unfolding lookup put
  lookup-put k j v [] = refl
  lookup-put k j v ((i, w) ∷ m) =
      ground (arith, eq_iff k j, eq_iff i k, eq_iff i j, lookup-put k j v m)

  pub lookup-remove :
      (k j : K) (m : Dict K V) → lookup j (remove k m) ≡ (if k == j then none else lookup j m)
  unfolding lookup remove
  lookup-remove k j [] = ground arith
  lookup-remove k j ((i, w) ∷ m) =
      ground (arith, eq_iff k j, eq_iff i k, eq_iff i j, lookup-remove k j m)

  pub put-IsDistinct : (k : K) (v : V) (m : Dict K V) → IsDistinct m → IsDistinct (put k v m)
  unfolding put
  put-IsDistinct k v [] h = (unfold lookup in refl, tt)
  put-IsDistinct k v ((i, w) ∷ m) (f, h) = elim (Bool-cases (i == k)) [
    | inl same ↦ rw same (f, h)
    | inr other ↦
        rw other
          (rw (lookup-put k i v m) (ground (arith, eq_iff k i, eq_iff i k)), put-IsDistinct k v m h)
  ]

  pub spread-IsDistinct : (a b : Dict K V) → IsDistinct a → IsDistinct (spread a b)
  unfolding spread
  spread-IsDistinct a [] h = h
  spread-IsDistinct a ((k, v) ∷ b) h = spread-IsDistinct (put k v a) b (put-IsDistinct k v a h)

  -- The keys of the second object win.
  pub lookup-spread :
      (k : K) (a b : Dict K V)
      → IsDistinct b
      → lookup k (spread a b) ≡ or_else (lookup k b) (lookup k a)
  unfolding spread lookup
  lookup-spread k a [] h = refl
  lookup-spread k a ((j, v) ∷ b) (f, h) =
      ground (arith, lookup-spread k (put j v a) b h, lookup-put j k v a, eq_iff j k, f)

  pub lookup-spread_nil :
      (k : K) (b : Dict K V) → IsDistinct b → lookup k (spread [] b) ≡ lookup k b
  unfolding lookup
  lookup-spread_nil k b h = lookup-spread k [] b h ∙ or_else-none (lookup k b)

  pub lookup-cons :
      (k j : K) (v : V) (m : Dict K V)
      → lookup k ((j, v) ∷ m) ≡ (if j == k then some v else lookup k m)
  unfolding lookup
  lookup-cons k j v m = refl

  pub put-cons :
      (k j : K) (v w : V) (m : Dict K V)
      → put k v ((j, w) ∷ m) ≡ (if j == k then (j, v) ∷ m else (j, w) ∷ put k v m)
  unfolding put
  put-cons k j v w m = refl

  pub lookup-put_same : (k : K) (v : V) (m : Dict K V) → lookup k (put k v m) ≡ some v
  lookup-put_same k v m = lookup-put k k v m ∙ ground (arith, eq_refl k)

  pub lookup-put_other :
      (k j : K) (v : V) (m : Dict K V) → k ≢ j → lookup j (put k v m) ≡ lookup j m
  lookup-put_other k j v m differ = lookup-put k j v m ∙ ground (arith, eq_iff k j)

  -- What is found after a write was written, or was there.
  pub lookup-put-cases :
      (k j : K) (v w : V) (m : Dict K V)
      → lookup j (put k v m) ≡ some w
      → ((k ≡ j) × (v ≡ w)) ⊎ ((k ≢ j) × (lookup j m ≡ some w))
  lookup-put-cases k j v w m h = elim (Bool-cases (k == j)) [
    | inl same ↦
        inl ((eq_iff k j).0 same, some-injective (rw same at (sym (lookup-put k j v m) ∙ h)))
    | inr other ↦ inr (
      (λ e. false≢true (sym other ∙ (eq_iff k j).1 e)),
      rw other at (sym (lookup-put k j v m) ∙ h),
    )
  ]

  pub lookup-remove-cases :
      (k j : K) (w : V) (m : Dict K V)
      → lookup j (remove k m) ≡ some w
      → (k ≢ j) × (lookup j m ≡ some w)
  lookup-remove-cases k j w m h = elim (Bool-cases (k == j)) [
    | inl same ↦ absurd (none≢some (rw same at (sym (lookup-remove k j m) ∙ h)))
    | inr other ↦ (
      (λ e. false≢true (sym other ∙ (eq_iff k j).1 e)),
      rw other at (sym (lookup-remove k j m) ∙ h),
    )
  ]

  pub lookup-remove_other : (k j : K) (m : Dict K V) → k ≢ j → lookup j (remove k m) ≡ lookup j m
  lookup-remove_other k j m differ = lookup-remove k j m ∙ ground (arith, eq_iff k j)

  pub lookup-remove_same : (k : K) (m : Dict K V) → lookup k (remove k m) ≡ none
  lookup-remove_same k m = lookup-remove k k m ∙ ground (arith, eq_refl k)
