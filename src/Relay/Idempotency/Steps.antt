-- ===== src/Relay/Idempotency/Steps.antt =====
-- relay/server.ts: every step of the handlers keeps the account of the publications.
use governance_seatbelt.Prelude.{
  ℕ, String, none, some, true, ◌==◌, nat_eq, string_eq, ◌≡◌, ◌≤◌, refl, ◌⊎◌, eq_iff, Bool-cases,
  Option-cases, inl, inr, length, ap, sym, ◌∙◌, none≢some, some-injective, false≢true,
}
use governance_seatbelt.Dict.{lookup, IsDistinct}
use governance_seatbelt.Dict.Laws.{
  lookup-put_same, lookup-put-cases, lookup-remove-cases, lookup-remove_other,
}
use governance_seatbelt.Relay.Bounded.Laws.{
  length-set_bounded, lookup-set_bounded, set_bounded-IsDistinct,
}
use governance_seatbelt.Relay.Idempotency.{
  ExecutionResult, Outcome, resolved, rejected, Completed, InFlight, Phase, concluded, Publication,
  Relay, completed_limit, set_phase, complete, conclude,
}
use governance_seatbelt.Relay.Idempotency.Invariant.{
  is_open, IsOpenFor, done, Inv, changed-fresh, changed-kept, changed-flying,
}

module _ (relay : Relay) (h : Inv relay) (promise : ℕ) (p : Publication)
    (found : lookup promise relay.publications ≡ some p) (opened : is_open p.phase ≡ true) where
  -- The promise of a key's entry is the one of its publication.
  same_promise :
      (k : String) (f : InFlight)
      → lookup k relay.in_flight ≡ some f
      → promise ≡ f.promise
      → p.key ≡ k
  same_promise k f flies same =
      let was = h.flying k f flies in
      ap (λ q. q.key)
        (some-injective (sym found ∙ ap (λ n. lookup n relay.publications) same ∙ was.found))
      ∙ was.key_same

  module _ (next_phase : Phase) (still : is_open next_phase ≡ true) where
    changing : Publication
    changing = record p { phase = next_phase }

    set_phase-flying :
        (k : String) (f : InFlight)
        → lookup k relay.in_flight ≡ some f
        → IsOpenFor (set_phase promise p next_phase relay).publications k f.artifact_hash f.promise
    set_phase-flying k f flies = elim (Bool-cases (promise == f.promise)) [
      | inl e ↦
          let same = (eq_iff promise f.promise).0 e in
          let was = h.flying k f flies in
          let it =
            some-injective (sym found ∙ ap (λ n. lookup n relay.publications) same ∙ was.found) in
          record {
            publication = record p { phase = next_phase };
            found = rw (sym same) (lookup-put_same promise _ relay.publications);
            key_same = ap (λ q. q.key) it ∙ was.key_same;
            hash_same = ap (λ q. q.artifact_hash) it ∙ was.hash_same;
            opened = still;
          }
      | inr other ↦
          changed-flying relay h promise p next_phase found opened k f flies
            (λ e. false≢true (sym other ∙ (eq_iff promise f.promise).1 e))
    ]

    pub set_phase-Inv : Inv (set_phase promise p next_phase relay)
    set_phase-Inv = record {
      fresh = changed-fresh relay h promise p next_phase found opened;
      flying = set_phase-flying;
      owned = λ i q there open_. elim (lookup-put-cases promise i _ q relay.publications there) [
        | inl (same, it) ↦ rw (sym it, sym same) (h.owned promise p found opened)
        | inr (other, old) ↦ h.owned i q old open_
      ];
      apart = h.apart;
      kept = λ k c there.
          let (i, was) = h.kept k c there in
          (
            i,
            changed-kept relay h promise p next_phase found opened k c.artifact_hash c.result i was,
          );
      distinct = h.distinct;
      bounded = h.bounded;
    }

  module _ (outcome : Outcome) where
    abbrev after : Relay
    after = conclude promise p outcome relay

    conclude-owned :
        (i : ℕ) (q : Publication)
        → lookup i after.publications ≡ some q
        → is_open q.phase ≡ true
        → lookup q.key after.in_flight
          ≡ some (record { artifact_hash = q.artifact_hash; promise = i })
    conclude-owned i q there open_ =
        elim (lookup-put-cases promise i _ q relay.publications there) [
          | inl (same, it) ↦ absurd (false≢true (ap (λ x. is_open x.phase) it ∙ open_))
          | inr (other, old) ↦
              lookup-remove_other p.key q.key relay.in_flight (λ e. other (
                ap (λ f. f.promise)
                  (some-injective (
                    sym (h.owned promise p found opened)
                    ∙ ap (λ k. lookup k relay.in_flight) e
                    ∙ h.owned i q old open_))))
              ∙ h.owned i q old open_
        ]

    completed-cases :
        (o : Outcome) (k : String) (c : Completed)
        → lookup k (complete p o relay.completed) ≡ some c
        → ((r : ExecutionResult) × (o ≡ resolved r)
            × (p.key ≡ k)
            × (c ≡ record { artifact_hash = p.artifact_hash; result = r }))
          ⊎ (lookup k relay.completed ≡ some c)
    completed-cases (rejected e) k c there = inr there
    completed-cases (resolved r) k c there =
        let either =
          lookup-set_bounded completed_limit k p.key c _ relay.completed h.distinct there in
        elim (Bool-cases (p.key == k)) [
          | inl same ↦
              inl (r, refl, (eq_iff p.key k).0 same, sym (some-injective (rw same at either)))
          | inr other ↦ inr (rw other at either)
        ]

    conclude-apart :
        (k : String) (f : InFlight)
        → lookup k after.in_flight ≡ some f
        → lookup k after.completed ≡ none
    conclude-apart k f there =
        let (differ, flies) = lookup-remove-cases p.key k f relay.in_flight there in
        elim (Option-cases (lookup k after.completed)) [
          | inl absent ↦ absent
          | inr (c, present) ↦ elim (completed-cases outcome k c present) [
            | inl (r, o, same, it) ↦ absurd (differ same)
            | inr old ↦ absurd (none≢some (sym (h.apart k f flies) ∙ old))
          ]
        ]

    conclude-kept :
        (k : String) (c : Completed)
        → lookup k after.completed ≡ some c
        → (i : ℕ) × (lookup i after.publications ≡ some (done k c.artifact_hash c.result))
    conclude-kept k c there = elim (completed-cases outcome k c there) [
      | inl (r, o, same, it) ↦
          (promise, rw (it, sym same, o) (lookup-put_same promise _ relay.publications))
      | inr old ↦
          let (i, was) = h.kept k c old in
          (
            i,
            changed-kept relay h promise p (concluded outcome) found opened k c.artifact_hash
                c.result i was,
          )
    ]

    conclude-bounded : (o : Outcome) → length (complete p o relay.completed) ≤ completed_limit
    conclude-bounded (rejected e) = h.bounded
    conclude-bounded (resolved r) =
        length-set_bounded completed_limit p.key _ relay.completed h.bounded

    conclude-IsDistinct : (o : Outcome) → IsDistinct (complete p o relay.completed)
    conclude-IsDistinct (rejected e) = h.distinct
    conclude-IsDistinct (resolved r) =
        set_bounded-IsDistinct completed_limit p.key _ relay.completed h.distinct

    pub conclude-Inv : Inv after
    conclude-Inv = record {
      fresh = changed-fresh relay h promise p (concluded outcome) found opened;
      flying = λ k f there.
          let (differ, flies) = lookup-remove-cases p.key k f relay.in_flight there in
          changed-flying relay h promise p (concluded outcome) found opened k f flies
            (λ same. differ (same_promise k f flies same));
      owned = conclude-owned;
      apart = conclude-apart;
      kept = conclude-kept;
      distinct = conclude-IsDistinct outcome;
      bounded = conclude-bounded outcome;
    }
