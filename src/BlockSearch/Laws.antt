-- ===== src/BlockSearch/Laws.antt =====
-- The block search returns, and what it returns.
use governance_seatbelt.Prelude.{
  ℕ, zero, suc, ◌+◌, ◌-◌, ◌/◌, ◌≤◌, ◌<◌, ltb, leb, ok, ◌≡◌, refl, ◌⊎◌, inl, inr, arith, Bool-cases,
}
use governance_seatbelt.Exec.{continue}
use governance_seatbelt.Retry.{with_destination_setup_retry}
use governance_seatbelt.BlockSearch.{Client, search, find_block_number_at_or_before_timestamp}

module _ {S : Type 0} (client : Client S) (time : ℕ → ℕ) (latest : ℕ) where
  -- The client answers within the attempts that it is given, at whatever state, for a chain whose
  -- block `n` up to the latest one has the timestamp `time n`.
  pub record IsAnswering : Type 0 where
    pub number_known :
        (s : S) → (with_destination_setup_retry client.get_block_number s).0 ≡ ok latest
    pub block_known :
        (s : S) (n : ℕ)
        → n ≤ latest
        → (with_destination_setup_retry (client.get_block n) s).0
          ≡ ok (record { number = n; timestamp = time n })

module _ (time : ℕ → ℕ) (latest : ℕ) (t : ℕ) where
  -- The last block that is not later than `t`, or block 0 if all are later.
  pub record IsLastBlock (b : ℕ) : Type 0 where
    pub exists_ : b ≤ latest
    pub not_later : (time b ≤ t) ⊎ ((b ≡ 0) × (t < time 0))
    pub last : (n : ℕ) → b < n → n ≤ latest → t < time n

  abbrev Found : ℕ → ℕ → Type 0
  Found low best = ((low ≡ 0) × (best ≡ 0)) ⊎ ((low ≡ suc best) × (time best ≤ t))

  abbrev Later : ℕ → Type 0
  Later end = (n : ℕ) → end ≤ n → n ≤ latest → t < time n

  ends :
      (low end best : ℕ)
      → end ≤ low
      → low ≤ end
      → end ≤ suc latest
      → Found low best
      → Later end
      → IsLastBlock best
  ends low end best p q r (inl (low_zero, best_zero)) later = record {
    exists_ = omega arith;
    not_later = inr (best_zero, later 0 (omega arith) (omega arith));
    last = λ n below bound. later n (omega arith) bound;
  }
  ends low end best p q r (inr (next, found)) later = record {
    exists_ = omega arith;
    not_later = inl found;
    last = λ n below bound. later n (omega arith) bound;
  }

module _ {S : Type 0} (client : Client S) (time : ℕ → ℕ) (latest : ℕ) (t : ℕ)
    (answering : IsAnswering client time latest)
    (increasing : (m n : ℕ) → m ≤ n → n ≤ latest → time m ≤ time n) where
  increasing-Later : (mid : ℕ) → t < time mid → Later time latest t mid
  increasing-Later mid h n p q = omega (arith, increasing mid n p q)

  search-IsLastBlock :
      (fuel low end best : ℕ) (s : S)
      → end ≤ low + fuel
      → low ≤ end
      → end ≤ suc latest
      → Found time latest t low best
      → Later time latest t end
      → (b : ℕ) × ((search client t fuel low end best s).0 ≡ ok b) × IsLastBlock time latest t b
  unfolding search
  search-IsLastBlock zero low end best s enough p q found later =
      (best, refl, ends time latest t low end best (omega arith) p q found later)
  search-IsLastBlock (suc fuel) low end best s enough p q found later =
      elim (Bool-cases (ltb low end)) [
        | inr done ↦
            rw done (best, refl, ends time latest t low end best (ground arith) p q found later)
        | inl more ↦
            let mid = (low + (end - 1)) / 2 in
            let s' = (with_destination_setup_retry (client.get_block mid) s).1 in
            elim (Bool-cases (leb (time mid) t)) [
              | inl early ↦
                  rw (more, answering.block_known s mid (ground arith))
                    (rw (early, continue)
                      (search-IsLastBlock fuel (mid + 1) end mid s' (ground arith) (ground arith) q
                        (inr (omega arith, ground arith)) later))
              | inr late ↦
                  rw (more, answering.block_known s mid (ground arith))
                    (rw (late, continue)
                      (search-IsLastBlock fuel low mid best s' (ground arith) (ground arith)
                        (ground arith) found (increasing-Later mid (ground arith))))
            ]
      ]

  -- For a client that answers each request within three attempts, on a chain whose timestamps do not
  -- decrease, the search returns the last block that is not later than the timestamp, or block 0 if
  -- every block is later.
  pub find_block_number_at_or_before_timestamp-IsLastBlock :
      (s : S)
      → (b : ℕ) × ((find_block_number_at_or_before_timestamp client t s).0 ≡ ok b)
        × IsLastBlock time latest t b
  unfolding find_block_number_at_or_before_timestamp
  find_block_number_at_or_before_timestamp-IsLastBlock s =
      let s₁ = (with_destination_setup_retry client.get_block_number s).1 in
      let s₂ = (with_destination_setup_retry (client.get_block latest) s₁).1 in
      elim (Bool-cases (leb (time latest) t)) [
        | inl early ↦
            rw (answering.number_known s, answering.block_known s₁ latest (omega arith))
              (rw early (
                latest,
                refl,
                record {
                  exists_ = omega arith;
                  not_later = inl (ground arith);
                  last = λ n p q. omega arith;
                },
              ))
        | inr late ↦
            rw (answering.number_known s, answering.block_known s₁ latest (omega arith))
              (rw late (
                search-IsLastBlock (suc latest) 0 (suc latest) 0 s₂ (omega arith) (omega arith)
                  (omega arith) (inl (refl, refl)) (λ n p q. omega arith)))
      ]
