-- ===== src/Relay/Bounded/Laws.antt =====
-- What a bounded map still holds.
use governance_seatbelt.Prelude.{
  ℕ, suc, none, some, [], ◌∷◌, true, leb, if◌then◌else◌, length, Eq, ◌==◌, ◌≡◌, ◌≢◌, ◌≤◌, ◌<◌,
  arith, eq_iff, eq_refl, Bool-cases, inl, inr, none≢some, Option-cases,
}
use governance_seatbelt.Dict.{Dict, lookup, put, IsDistinct}
use governance_seatbelt.Dict.Laws.{lookup-put, lookup-put_same, put-IsDistinct}
use governance_seatbelt.Relay.Bounded.{delete_first, set_bounded}

leb_lem : (a b : ℕ) → a ≤ b → leb a b ≡ true
leb_lem a b h = ground arith

module _ {K V : Type 0} ⦃e : Eq K⦄ where
  length-put : (k : K) (v : V) (m : Dict K V) → length (put k v m) ≤ suc (length m)
  unfolding put
  length-put k v [] = omega arith
  length-put k v ((j, w) ∷ m) = ground (arith, length-put k v m)

  pub length-set_bounded :
      (limit : ℕ) (k : K) (v : V) (m : Dict K V)
      → length m ≤ limit
      → length (set_bounded limit k v m) ≤ limit
  unfolding set_bounded
  length-set_bounded limit k v m h = ground (arith, length-put k v m)

  -- The key has the value, and at most some number of entries come after it.
  pub Holds : ℕ → K → V → Dict K V → Type 0
  Holds n k v [] = ⊥
  Holds n k v ((j, w) ∷ m) = if j == k then (w ≡ v) × (length m ≤ n) else Holds n k v m

  pub Holds-lookup : (n : ℕ) (k : K) (v : V) (m : Dict K V) → Holds n k v m → lookup k m ≡ some v
  unfolding Holds lookup
  Holds-lookup n k v [] h = absurd h
  Holds-lookup n k v ((j, w) ∷ m) h = ground (arith, Holds-lookup n k v m)

  put_new-Holds :
      (n : ℕ) (k : K) (v : V) (m : Dict K V) → lookup k m ≡ none → Holds n k v (put k v m)
  unfolding Holds lookup put
  put_new-Holds n k v [] h = ground (arith, eq_refl k)
  put_new-Holds n k v ((j, w) ∷ m) h = ground (arith, put_new-Holds n k v m)

  pub Holds-suc : (n : ℕ) (k : K) (v : V) (m : Dict K V) → Holds n k v m → Holds (suc n) k v m
  unfolding Holds
  Holds-suc n k v [] h = h
  Holds-suc n k v ((j, w) ∷ m) h = ground (arith, Holds-suc n k v m)

  put_other-Holds :
      (n : ℕ) (k j : K) (v w : V) (m : Dict K V)
      → j ≢ k
      → Holds n k v m
      → Holds (suc n) k v (put j w m)
  unfolding Holds put
  put_other-Holds n k j v w [] differ h = absurd h
  put_other-Holds n k j v w ((i, x) ∷ m) differ h = elim (Bool-cases (i == j)) [
    | inl same ↦ rw same (ground (arith, eq_iff i k, eq_iff i j, Holds-suc n k v m))
    | inr other ↦ rw other (ground (arith, put_other-Holds n k j v w m differ, length-put j w m))
  ]

  delete_first-Holds :
      (limit n : ℕ) (k : K) (v : V) (m : Dict K V)
      → n < limit
      → limit < length m
      → Holds n k v m
      → Holds n k v (delete_first m)
  unfolding Holds
  delete_first-Holds limit n k v [] few many h = absurd h
  delete_first-Holds limit n k v ((j, w) ∷ m) few many h = ground arith

  -- The writes of other keys push a key out only after as many of them as the map has room for.
  pub set_bounded-Holds :
      (limit n : ℕ) (k j : K) (v w : V) (m : Dict K V)
      → suc n < limit
      → j ≢ k
      → Holds n k v m
      → Holds (suc n) k v (set_bounded limit j w m)
  unfolding set_bounded
  set_bounded-Holds limit n k j v w m few differ h =
      elim (Bool-cases (leb (length (put j w m)) limit)) [
        | inl fits ↦ rw fits (put_other-Holds n k j v w m differ h)
        | inr over ↦ rw over (
            delete_first-Holds limit (suc n) k v (put j w m) few (ground arith)
              (put_other-Holds n k j v w m differ h))
      ]

  pub set_bounded_new-Holds :
      (limit : ℕ) (k : K) (v : V) (m : Dict K V)
      → 0 < limit
      → lookup k m ≡ none
      → Holds 0 k v (set_bounded limit k v m)
  unfolding set_bounded
  set_bounded_new-Holds limit k v m some_room h =
      elim (Bool-cases (leb (length (put k v m)) limit)) [
        | inl fits ↦ rw fits (put_new-Holds 0 k v m h)
        | inr over ↦ rw over (
            delete_first-Holds limit 0 k v (put k v m) some_room (ground arith)
              (put_new-Holds 0 k v m h))
      ]

  length-put_old :
      (k : K) (v w : V) (m : Dict K V) → lookup k m ≡ some w → length (put k v m) ≡ length m
  unfolding put lookup
  length-put_old k v w [] h = absurd (none≢some h)
  length-put_old k v w ((j, x) ∷ m) h = ground (arith, length-put_old k v w m)

  pub lookup-set_bounded_same :
      (limit : ℕ) (k : K) (v : V) (m : Dict K V)
      → 0 < limit
      → length m ≤ limit
      → lookup k (set_bounded limit k v m) ≡ some v
  unfolding set_bounded
  lookup-set_bounded_same limit k v m some_room fits = elim (Option-cases (lookup k m)) [
    | inl new ↦ Holds-lookup 0 k v _ (set_bounded_new-Holds limit k v m some_room new)
    | inr (w, old) ↦
        let same = length-put_old k v w m old in
        rw (same, leb_lem (length m) limit fits) (lookup-put_same k v m)
  ]

  -- Nothing appears that was not written.
  lookup-delete_first :
      (k : K) (v : V) (m : Dict K V)
      → IsDistinct m
      → lookup k (delete_first m) ≡ some v
      → lookup k m ≡ some v
  unfolding lookup
  lookup-delete_first k v [] d h = h
  lookup-delete_first k v ((j, w) ∷ m) (f, d) h = ground (arith, eq_iff j k)

  pub lookup-set_bounded :
      (limit : ℕ) (k j : K) (v w : V) (m : Dict K V)
      → IsDistinct m
      → lookup k (set_bounded limit j w m) ≡ some v
      → (if j == k then some w else lookup k m) ≡ some v
  unfolding set_bounded
  lookup-set_bounded limit k j v w m d h = elim (Bool-cases (leb (length (put j w m)) limit)) [
    | inl fits ↦ rw (← lookup-put j k w m) (rw fits at h)
    | inr over ↦
        rw (← lookup-put j k w m)
          (lookup-delete_first k v (put j w m) (put-IsDistinct j w m d) (rw over at h))
  ]

  pub set_bounded-IsDistinct :
      (limit : ℕ) (k : K) (v : V) (m : Dict K V)
      → IsDistinct m
      → IsDistinct (set_bounded limit k v m)
  unfolding set_bounded
  set_bounded-IsDistinct limit k v m d = elim (Bool-cases (leb (length (put k v m)) limit)) [
    | inl fits ↦ rw fits (put-IsDistinct k v m d)
    | inr over ↦ rw over (tail_of (put k v m) (put-IsDistinct k v m d))
  ]
    where
      tail_of : (m : Dict K V) → IsDistinct m → IsDistinct (delete_first m)
      tail_of [] d = tt
      tail_of ((j, w) ∷ m) (f, d) = d
