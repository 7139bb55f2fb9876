-- ===== src/Relay/Idempotency/Laws.antt =====
-- relay/server.ts: what idempotency keys guarantee, over every interleaving of the handlers.
use governance_seatbelt.Prelude.{
  ℕ, String, some, List, [], ◌∷◌, true, ◌==◌, nat_eq, string_eq, ◌≡◌, refl, Bool-cases,
  Option-cases, inl, inr, ap, sym, ◌∙◌, some-injective,
}
use governance_seatbelt.Dict.{lookup}
use governance_seatbelt.Relay.Idempotency.{
  Outcome, Phase, pending, settled, concluded, Publication, Relay, new_relay, request_publication,
  set_phase, settle, conclude, go_on, Event, request, settles, goes_on, step, run,
}
use governance_seatbelt.Relay.Idempotency.Invariant.{is_open, Inv, begin-Inv, new_relay-Inv}
use governance_seatbelt.Relay.Idempotency.Steps.{set_phase-Inv, conclude-Inv}

request_publication-Inv :
    (key hash : String) (relay : Relay) → Inv relay → Inv (request_publication key hash relay).1
unfolding request_publication
request_publication-Inv key hash relay h = elim (Option-cases (lookup key relay.completed)) [
  | inr (c, found) ↦ elim (Bool-cases (c.artifact_hash == hash)) [
    | inl same ↦ rw (found, same, request_publication) h
    | inr other ↦ rw (found, other, request_publication) h
  ]
  | inl new ↦ elim (Option-cases (lookup key relay.in_flight)) [
    | inr (f, flying) ↦ elim (Bool-cases (f.artifact_hash == hash)) [
      | inl same ↦ rw (new, flying, same, request_publication) h
      | inr other ↦ rw (new, flying, other, request_publication) h
    ]
    | inl idle ↦ rw (new, idle, request_publication) (begin-Inv relay h key hash new idle)
  ]
]

-- One publication, changed or not, by its phase.
settle-Inv : (i : ℕ) (outcome : Outcome) (relay : Relay) → Inv relay → Inv (settle i outcome relay)
unfolding settle
settle-Inv i outcome relay h = elim (Option-cases (lookup i relay.publications)) [
  | inl absent ↦ rw (absent, settle) h
  | inr (p, found) ↦ rw (found, settle) (by_phase p p.phase refl found)
]
  where
    by_phase :
        (p : Publication) (phase : Phase)
        → p.phase ≡ phase
        → lookup i relay.publications ≡ some p
        → Inv (elim phase [
          | pending ↦ set_phase i p (settled outcome) relay
          | settled _ ↦ relay
          | concluded _ ↦ relay
        ])
    by_phase p pending e found =
        set_phase-Inv relay h i p found (ap is_open e) (settled outcome) refl
    by_phase p (settled o) e found = h
    by_phase p (concluded o) e found = h

pub go_on-Inv : (i : ℕ) (relay : Relay) → Inv relay → Inv (go_on i relay)
unfolding go_on
go_on-Inv i relay h = elim (Option-cases (lookup i relay.publications)) [
  | inl absent ↦ rw (absent, go_on) h
  | inr (p, found) ↦ rw (found, go_on) (by_phase p p.phase refl found)
]
  where
    by_phase :
        (p : Publication) (phase : Phase)
        → p.phase ≡ phase
        → lookup i relay.publications ≡ some p
        → Inv (elim phase [
          | pending ↦ relay
          | settled outcome ↦ conclude i p outcome relay
          | concluded _ ↦ relay
        ])
    by_phase p pending e found = h
    by_phase p (settled o) e found = conclude-Inv relay h i p found (ap is_open e) o
    by_phase p (concluded o) e found = h

pub step-Inv : (event : Event) (relay : Relay) → Inv relay → Inv (step event relay)
unfolding step
step-Inv (request key hash) relay h = request_publication-Inv key hash relay h
step-Inv (settles i outcome) relay h = settle-Inv i outcome relay h
step-Inv (goes_on i) relay h = go_on-Inv i relay h

run_from-Inv : (events : List Event) (relay : Relay) → Inv relay → Inv (run events relay)
unfolding run
run_from-Inv [] relay h = h
run_from-Inv (event ∷ events) relay h =
    run_from-Inv events (step event relay) (step-Inv event relay h)

pub run-Inv : (events : List Event) → Inv (run events new_relay)
run-Inv events = run_from-Inv events new_relay new_relay-Inv

-- Whatever requests, settlements and handlers interleave, at most one publication of an idempotency key
-- has been started and not yet been seen to its end by the handler that started it.
pub run-exclusive :
    (events : List Event) (i j : ℕ) (p q : Publication)
    → lookup i (run events new_relay).publications ≡ some p
    → lookup j (run events new_relay).publications ≡ some q
    → p.key ≡ q.key
    → is_open p.phase ≡ true
    → is_open q.phase ≡ true
    → i ≡ j
run-exclusive events i j p q here there same open_p open_q =
    let relay = run events new_relay in
    let h = run-Inv events in
    ap (λ f. f.promise)
      (some-injective (
        sym (h.owned i p here open_p)
        ∙ ap (λ k. lookup k relay.in_flight) same
        ∙ h.owned j q there open_q))
