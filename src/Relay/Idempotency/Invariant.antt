-- ===== src/Relay/Idempotency/Invariant.antt =====
-- relay/server.ts: how the maps of the handler account for the publications it has started.
use governance_seatbelt.Prelude.{
  ℕ, String, none, some, Bool, true, false, nat_eq, string_eq, ◌≡◌, ◌≢◌, ◌≤◌, refl, arith, inl, inr,
  length, ap, sym, ◌∙◌, none≢some, some-injective, false≢true,
}
use governance_seatbelt.Dict.{Dict, lookup, put, IsDistinct}
use governance_seatbelt.Dict.Laws.{lookup-put_same, lookup-put_other, lookup-put-cases}
use governance_seatbelt.Relay.Idempotency.{
  ExecutionResult, resolved, Completed, InFlight, Phase, pending, concluded, Publication, Relay,
  new_relay, completed_limit, begin,
}

-- Not yet seen by the handler that started it.
abbrev pub is_open : Phase → Bool
is_open (concluded o) = false
is_open _ = true

-- The publication under a number is one of a key and a hash, and open.
pub record IsOpenFor (publications : Dict ℕ Publication) (key hash : String) (promise : ℕ)
    : Type 0 where
  pub publication : Publication
  pub found : lookup promise publications ≡ some publication
  pub key_same : publication.key ≡ key
  pub hash_same : publication.artifact_hash ≡ hash
  pub opened : is_open publication.phase ≡ true

abbrev pub done : String → String → ExecutionResult → Publication
done key hash result = record {
  key = key;
  artifact_hash = hash;
  phase = concluded (resolved result);
}

pub record Inv (relay : Relay) : Type 0 where
  pub fresh : (i : ℕ) → relay.next ≤ i → lookup i relay.publications ≡ none
  pub flying :
      (key : String) (f : InFlight)
      → lookup key relay.in_flight ≡ some f
      → IsOpenFor relay.publications key f.artifact_hash f.promise
  pub owned :
      (i : ℕ) (p : Publication)
      → lookup i relay.publications ≡ some p
      → is_open p.phase ≡ true
      → lookup p.key relay.in_flight
        ≡ some (record { artifact_hash = p.artifact_hash; promise = i })
  pub apart :
      (key : String) (f : InFlight)
      → lookup key relay.in_flight ≡ some f
      → lookup key relay.completed ≡ none
  pub kept :
      (key : String) (c : Completed)
      → lookup key relay.completed ≡ some c
      → (i : ℕ) × (lookup i relay.publications ≡ some (done key c.artifact_hash c.result))
  pub distinct : IsDistinct relay.completed
  pub bounded : length relay.completed ≤ completed_limit

pub new_relay-Inv : Inv new_relay
unfolding lookup
new_relay-Inv = record {
  fresh = λ i h. refl;
  flying = λ key f h. absurd (none≢some h);
  owned = λ i p h o. absurd (none≢some h);
  apart = λ key f h. refl;
  kept = λ key c h. absurd (none≢some h);
  distinct = tt;
  bounded = omega arith;
}

module _ (relay : Relay) (h : Inv relay) where
  -- A publication that is there has an earlier number.
  not_next :
      (i : ℕ) (p : Publication)
      → lookup i relay.publications ≡ some p
      → (j : ℕ) → relay.next ≤ j
      → j ≢ i
  not_next i p found j past same =
      none≢some (sym (h.fresh j past) ∙ ap (λ n. lookup n relay.publications) same ∙ found)

  module _ (key hash : String) (new : lookup key relay.completed ≡ none)
      (idle : lookup key relay.in_flight ≡ none) where
    abbrev begun : Publication
    begun = record { key = key; artifact_hash = hash; phase = pending }

    begin-flying :
        (k : String) (f : InFlight)
        → lookup k (begin key hash relay).in_flight ≡ some f
        → IsOpenFor (begin key hash relay).publications k f.artifact_hash f.promise
    begin-flying k f found = elim (lookup-put-cases key k _ f relay.in_flight found) [
      | inl (same, it) ↦ record {
        publication = begun;
        found =
            rw (sym (ap (λ g. g.promise) it)) (lookup-put_same relay.next begun relay.publications);
        key_same = same;
        hash_same = ap (λ g. g.artifact_hash) it;
        opened = refl;
      }
      | inr (other, old) ↦
          let was = h.flying k f old in
          record {
            publication = was.publication;
            found =
                lookup-put_other relay.next f.promise begun relay.publications
                  (not_next f.promise was.publication was.found relay.next (omega arith))
                ∙ was.found;
            key_same = was.key_same;
            hash_same = was.hash_same;
            opened = was.opened;
          }
    ]

    begin-owned :
        (i : ℕ) (p : Publication)
        → lookup i (begin key hash relay).publications ≡ some p
        → is_open p.phase ≡ true
        → lookup p.key (begin key hash relay).in_flight
          ≡ some (record { artifact_hash = p.artifact_hash; promise = i })
    begin-owned i p found opened =
        elim (lookup-put-cases relay.next i _ p relay.publications found) [
          | inl (same, it) ↦ rw (sym it, sym same) (lookup-put_same key _ relay.in_flight)
          | inr (other, old) ↦
              lookup-put_other key p.key _ relay.in_flight (λ e.
                none≢some
                  (sym idle ∙ ap (λ k. lookup k relay.in_flight) e ∙ h.owned i p old opened))
              ∙ h.owned i p old opened
        ]

    pub begin-Inv : Inv (begin key hash relay)
    begin-Inv = record {
      fresh = λ i past.
          lookup-put_other relay.next i begun relay.publications (omega arith)
          ∙ h.fresh i (omega arith);
      flying = begin-flying;
      owned = begin-owned;
      apart = λ k f found. elim (lookup-put-cases key k _ f relay.in_flight found) [
        | inl (same, it) ↦ rw (sym same) new
        | inr (other, old) ↦ h.apart k f old
      ];
      kept = λ k c found.
          let (i, was) = h.kept k c found in
          (
            i,
            lookup-put_other relay.next i begun relay.publications
                  (not_next i _ was relay.next (omega arith))
                ∙ was,
          );
      distinct = h.distinct;
      bounded = h.bounded;
    }

  -- What stays true of the other publications when one of them changes.
  module _ (promise : ℕ) (p : Publication) (next_phase : Phase)
      (found : lookup promise relay.publications ≡ some p) (opened : is_open p.phase ≡ true) where
    abbrev pub changed : Dict ℕ Publication
    changed = put promise (record p { phase = next_phase }) relay.publications

    pub changed-fresh : (i : ℕ) → relay.next ≤ i → lookup i changed ≡ none
    changed-fresh i past =
        lookup-put_other promise i _ relay.publications
          (λ e. not_next promise p found i past (sym e))
        ∙ h.fresh i past

    pub changed-kept :
        (key hash : String) (result : ExecutionResult) (i : ℕ)
        → lookup i relay.publications ≡ some (done key hash result)
        → lookup i changed ≡ some (done key hash result)
    changed-kept key hash result i was =
        lookup-put_other promise i _ relay.publications (λ e.
          let same = some-injective (sym found ∙ ap (λ n. lookup n relay.publications) e ∙ was) in
          false≢true (ap (λ q. is_open q.phase) (sym same) ∙ opened))
        ∙ was

    pub changed-flying :
        (k : String) (f : InFlight)
        → lookup k relay.in_flight ≡ some f
        → promise ≢ f.promise
        → IsOpenFor changed k f.artifact_hash f.promise
    changed-flying k f flies differ =
        let was = h.flying k f flies in
        record {
          publication = was.publication;
          found = lookup-put_other promise f.promise _ relay.publications differ ∙ was.found;
          key_same = was.key_same;
          hash_same = was.hash_same;
          opened = was.opened;
        }
