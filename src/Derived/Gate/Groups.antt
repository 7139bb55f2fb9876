-- ===== src/Derived/Gate/Groups.antt =====
-- Destination results by chain: a property of every group is one of every result.
use governance_seatbelt.Prelude.{
  ℕ, List, [], ◌∷◌, ◌++◌, false, ◌||◌, if◌then◌else◌, from_option, any, nat_eq, string_eq, ◌==◌,
  ◌≡◌, refl, ◌↔◌, inl, inr, arith, eq_iff, All, Bool-cases, subst,
}
use governance_seatbelt.Dict.{Dict, lookup, put}
use governance_seatbelt.Dict.Laws.{lookup-cons, put-cons}
use governance_seatbelt.CrossChain.{JobResult}
use governance_seatbelt.Derived.Gate.{group_by_chain, not_validated}

-- `Good` is a property of chains.
module _ (Good : ℕ → Type 0) where
  abbrev pub IsGroupValid : ℕ × List JobResult → Type 0
  IsGroupValid g = (any not_validated g.1 ≡ false) × Good g.0

  abbrev pub IsResultValid : JobResult → Type 0
  IsResultValid d = (not_validated d ≡ false) × Good d.chain_id

  abbrev add : JobResult → Dict ℕ (List JobResult) → Dict ℕ (List JobResult)
  add d groups = put d.chain_id (from_option [] (lookup d.chain_id groups) ++ d ∷ []) groups

  any-append :
      (xs : List JobResult) (d : JobResult)
      → any not_validated (xs ++ d ∷ []) ≡ (any not_validated xs || not_validated d)
  any-append [] d = ground arith
  any-append (x ∷ xs) d = ground (arith, any-append xs d)

  add_here :
      (c : ℕ) (l : List JobResult) (d : JobResult)
      → c ≡ d.chain_id
      → IsGroupValid (c, l ++ d ∷ []) ↔ (IsGroupValid (c, l) × IsResultValid d)
  add_here c l d e = (
    λ h.
        ((ground (arith, any-append l d), h.1), (ground (arith, any-append l d), subst Good e h.1)),
    λ h. (ground (arith, any-append l d), h.0.1),
  )

  add-cons :
      (d : JobResult) (c : ℕ) (l : List JobResult) (groups : Dict ℕ (List JobResult))
      → add d ((c, l) ∷ groups)
        ≡ (if c == d.chain_id then (c, l ++ d ∷ []) ∷ groups else (c, l) ∷ add d groups)
  add-cons d c l groups = elim (Bool-cases (c == d.chain_id)) [
    | inl same ↦ rw (put-cons, lookup-cons, same)
    | inr other ↦ rw (put-cons, lookup-cons, other)
  ]

  -- Adding a result to its group.
  All-add :
      (d : JobResult) (groups : Dict ℕ (List JobResult))
      → All IsGroupValid (add d groups) ↔ (All IsGroupValid groups × IsResultValid d)
  All-add d [] =
      let here = add_here d.chain_id [] d refl in
      unfold put lookup in (λ h. (tt, (here.0 h.0).1), λ h. (here.1 ((refl, h.1.1), h.1), tt))
  All-add d ((c, l) ∷ groups) = elim (Bool-cases (c == d.chain_id)) [
    | inl same ↦
        let here = add_here c l d ((eq_iff c d.chain_id).0 same) in
        rw (add-cons, same)
          (λ h. (((here.0 h.0).0, h.1), (here.0 h.0).1), λ h. (here.1 (h.0.0, h.1), h.0.1))
    | inr other ↦
        let ih = All-add d groups in
        rw (add-cons, other)
          (λ h. ((h.0, (ih.0 h.1).0), (ih.0 h.1).1), λ h. (h.0.0, ih.1 (h.0.1, h.1)))
  ]

  pub All-group_by_chain :
      (groups : Dict ℕ (List JobResult)) (ds : List JobResult)
      → All IsGroupValid (group_by_chain groups ds)
        ↔ (All IsGroupValid groups × All IsResultValid ds)
  unfolding group_by_chain
  All-group_by_chain groups [] = (λ h. (h, tt), λ h. h.0)
  All-group_by_chain groups (d ∷ ds) =
      let ih = All-group_by_chain (add d groups) ds in
      let one = All-add d groups in
      (
        λ h. let (gs, rest) = ih.0 h in let (old, now) = one.0 gs in (old, (now, rest)),
        λ h. ih.1 (one.1 (h.0, h.1.0), h.1.1),
      )
