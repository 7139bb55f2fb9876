-- ===== src/Relay/Idempotency/Answers.antt =====
-- relay/server.ts: what the answer to a publish request says of the publications of its key.
use governance_seatbelt.Prelude.{
  ℕ, String, Option, none, some, List, false, if◌then◌else◌, ◌==◌, nat_eq, string_eq, ◌≡◌, ◌≢◌,
  refl, arith, eq_iff, Bool-cases, Option-cases, inl, inr, ap, sym, ◌∙◌, none≢some, false≢true,
  subst,
}
use governance_seatbelt.Dict.{lookup}
use governance_seatbelt.Dict.Laws.{lookup-put_same}
use governance_seatbelt.Relay.Idempotency.{
  ExecutionResult, Completed, InFlight, pending, Publication, Relay, new_relay, request_publication,
  Event, run, Decision, replay, await, start, completed_conflict, in_flight_conflict,
}
use governance_seatbelt.Relay.Idempotency.Invariant.{is_open, IsOpenFor, done, Inv}
use governance_seatbelt.Relay.Idempotency.Laws.{run-Inv}

-- What each answer to a request says of the publications that have been started.
pub data IsJustified (key hash : String) (relay : Relay) : Decision → Type 0 where
  replayed :
      {r : ExecutionResult} (i : ℕ)
      → lookup i relay.publications ≡ some (done key hash r)
      → IsJustified key hash relay (replay r)
  awaited : {i : ℕ} → IsOpenFor relay.publications key hash i → IsJustified key hash relay (await i)
  conflicts_with_result :
      {other : String} (i : ℕ) (r : ExecutionResult)
      → other ≢ hash
      → lookup i relay.publications ≡ some (done key other r)
      → IsJustified key hash relay (completed_conflict other)
  conflicts_in_flight :
      {other : String} (i : ℕ)
      → other ≢ hash
      → IsOpenFor relay.publications key other i
      → IsJustified key hash relay (in_flight_conflict other)
  started :
      {i : ℕ}
      → ((j : ℕ) (p : Publication)
          → lookup j relay.publications ≡ some p
          → p.key ≡ key
          → is_open p.phase ≡ false)
      → lookup key relay.completed ≡ none
      → lookup i relay.publications ≡ none
      → IsOpenFor (request_publication key hash relay).1.publications key hash i
      → IsJustified key hash relay (start i)

module _ (key hash : String) (relay : Relay) (h : Inv relay) where
  differ : {a b : String} → (a == b) ≡ false → a ≢ b
  differ other e = false≢true (sym other ∙ (eq_iff _ _).1 e)

  idle_closed :
      lookup key relay.in_flight ≡ none
      → (j : ℕ) (p : Publication) → lookup j relay.publications ≡ some p
      → p.key ≡ key
      → is_open p.phase ≡ false
  idle_closed idle j p there same = elim (Bool-cases (is_open p.phase)) [
    | inr closed ↦ closed
    | inl opened ↦ absurd (
        none≢some
          (sym idle ∙ ap (λ k. lookup k relay.in_flight) (sym same) ∙ h.owned j p there opened))
  ]

  -- For a key that has a record.
  justified_completed :
      (c : Completed)
      → lookup key relay.completed ≡ some c
      → IsJustified key hash relay
          (if c.artifact_hash == hash then replay c.result else completed_conflict c.artifact_hash)
  justified_completed c found =
      let (i, was) = h.kept key c found in
      elim (Bool-cases (c.artifact_hash == hash)) [
        | inl same ↦ rw same (
            replayed i (
              subst (λ x. lookup i relay.publications ≡ some (done key x c.result))
                ((eq_iff c.artifact_hash hash).0 same) was))
        | inr other ↦ rw other (conflicts_with_result i c.result (differ other) was)
      ]

  justified_in_flight :
      (f : InFlight)
      → lookup key relay.in_flight ≡ some f
      → IsJustified key hash relay
          (if f.artifact_hash == hash then await f.promise else in_flight_conflict f.artifact_hash)
  justified_in_flight f flying = elim (Bool-cases (f.artifact_hash == hash)) [
    | inl same ↦ rw same (
        awaited (
          subst (λ x. IsOpenFor relay.publications key x f.promise)
            ((eq_iff f.artifact_hash hash).0 same) (h.flying key f flying)))
    | inr other ↦ rw other (conflicts_in_flight f.promise (differ other) (h.flying key f flying))
  ]

  justified_new :
      lookup key relay.completed ≡ none
      → lookup key relay.in_flight ≡ none
      → IsJustified key hash relay (start relay.next)
  unfolding request_publication
  justified_new new idle = started (idle_closed idle) new (h.fresh relay.next (omega arith)) (
      rw (new, idle, request_publication)
        (record {
          publication = record { key = key; artifact_hash = hash; phase = pending };
          found = lookup-put_same relay.next _ relay.publications;
          key_same = refl;
          hash_same = refl;
          opened = refl;
        }))

  -- The answer by the two lookups.
  answer : Option Completed → Option InFlight → Decision
  answer (some c) f =
      if c.artifact_hash == hash then replay c.result else completed_conflict c.artifact_hash
  answer none (some f) =
      if f.artifact_hash == hash then await f.promise else in_flight_conflict f.artifact_hash
  answer none none = start relay.next

  answer_lem :
      (request_publication key hash relay).0
      ≡ answer (lookup key relay.completed) (lookup key relay.in_flight)
  unfolding request_publication answer
  answer_lem = ground arith

  request_publication-IsJustified :
      IsJustified key hash relay (request_publication key hash relay).0
  unfolding answer
  request_publication-IsJustified =
      rw answer_lem (elim (Option-cases (lookup key relay.completed)) [
        | inr (c, found) ↦ rw found (justified_completed c found)
        | inl new ↦ elim (Option-cases (lookup key relay.in_flight)) [
          | inr (f, flying) ↦ rw (new, flying) (justified_in_flight f flying)
          | inl idle ↦ rw (new, idle) (justified_new new idle)
        ]
      ])

-- Whatever requests, settlements and handlers interleaved before, a request is answered by what has
-- been published under its idempotency key: with the result of a publication of the same artifact
-- that succeeded, by waiting for an unfinished one of the same artifact, with a conflict for
-- one of another artifact, or else by a publication that is started while no other of the key is
-- unfinished.
pub request_publication-justified :
    (events : List Event) (key hash : String)
    → IsJustified key hash
        (run events new_relay)
        (request_publication key hash (run events new_relay)).0
request_publication-justified events key hash =
    request_publication-IsJustified key hash (run events new_relay) (run-Inv events)
