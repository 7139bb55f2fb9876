-- ===== src/Relay/Idempotency/Kept.antt =====
-- relay/server.ts: how long the relay remembers the result of a publication.
use governance_seatbelt.Prelude.{
  ℕ, suc, String, some, List, [], ◌∷◌, Bool, true, false, nat_eq, string_eq, ◌≡◌, ◌≢◌, ◌<◌, ◌+◌,
  refl, arith, eq_refl, Option-cases, inl, inr, ap, sym, ◌∙◌, none≢some, count,
}
use native.Mathlib.Nat.{add-zero, add-suc, suc-add}
use governance_seatbelt.Dict.{Dict, lookup}
use governance_seatbelt.Relay.Bounded.Laws.{
  Holds, Holds-lookup, set_bounded-Holds, set_bounded_new-Holds, Holds-suc,
}
use governance_seatbelt.Relay.Idempotency.{
  ExecutionResult, Outcome, resolved, rejected, Completed, Phase, pending, settled, concluded,
  Publication, Relay, new_relay, completed_limit, request_publication, settle, complete, conclude,
  go_on, Event, request, settles, goes_on, run, replay,
}
use governance_seatbelt.Relay.Idempotency.Invariant.{is_open, Inv}
use governance_seatbelt.Relay.Idempotency.Laws.{step-Inv, go_on-Inv, run-Inv}

-- The record of a key, with at most some number of later ones.
abbrev Remembers : ℕ → String → Completed → Relay → Type 0
Remembers n key record_ relay = Holds n key record_ relay.completed

abbrev pub is_going_on : Event → Bool
is_going_on (goes_on i) = true
is_going_on _ = false

request_completed :
    (key hash : String) (relay : Relay)
    → (request_publication key hash relay).1.completed ≡ relay.completed
unfolding request_publication
request_completed key hash relay = ground arith

settle_completed :
    (i : ℕ) (outcome : Outcome) (relay : Relay)
    → (settle i outcome relay).completed ≡ relay.completed
unfolding settle
settle_completed i outcome relay = ground arith

-- A key with a record has no unfinished publication, so none that succeeds later is its own.
not_its_own :
    (relay : Relay)
    → Inv relay
    → (n : ℕ) (key : String) (record_ : Completed) (i : ℕ) (p : Publication)
    → Remembers n key record_ relay
    → lookup i relay.publications ≡ some p
    → is_open p.phase ≡ true
    → p.key ≢ key
not_its_own relay h n key record_ i p remembered found opened same = none≢some (
    sym (h.apart p.key _ (h.owned i p found opened))
    ∙ ap (λ k. lookup k relay.completed) same
    ∙ Holds-lookup n key record_ relay.completed remembered)

complete-Remembers :
    (p : Publication) (o : Outcome) (n : ℕ) (key : String) (record_ : Completed)
    (completed : Dict String Completed)
    → p.key ≢ key
    → suc n < completed_limit
    → Holds n key record_ completed
    → Holds (suc n) key record_ (complete p o completed)
complete-Remembers p (rejected e) n key record_ completed differ few h =
    Holds-suc n key record_ completed h
complete-Remembers p (resolved r) n key record_ completed differ few h =
    set_bounded-Holds completed_limit n key p.key record_ _ completed few differ h

go_on-Remembers :
    (i n : ℕ) (key : String) (record_ : Completed) (relay : Relay)
    → Inv relay
    → suc n < completed_limit
    → Remembers n key record_ relay
    → Remembers (suc n) key record_ (go_on i relay)
unfolding go_on
go_on-Remembers i n key record_ relay h few remembered =
    elim (Option-cases (lookup i relay.publications)) [
      | inl absent ↦ rw (absent, go_on) (Holds-suc n key record_ relay.completed remembered)
      | inr (p, found) ↦ rw (found, go_on) (by_phase p p.phase refl found)
    ]
  where
    by_phase :
        (p : Publication) (phase : Phase)
        → p.phase ≡ phase
        → lookup i relay.publications ≡ some p
        → Remembers (suc n) key record_ (elim phase [
          | pending ↦ relay
          | settled outcome ↦ conclude i p outcome relay
          | concluded _ ↦ relay
        ])
    by_phase p pending e found = Holds-suc n key record_ relay.completed remembered
    by_phase p (settled o) e found =
        complete-Remembers p o n key record_ relay.completed
          (not_its_own relay h n key record_ i p remembered found (ap is_open e)) few remembered
    by_phase p (concluded o) e found = Holds-suc n key record_ relay.completed remembered

run-Remembers :
    (events : List Event) (n : ℕ) (key : String) (record_ : Completed) (relay : Relay)
    → Inv relay
    → n + count is_going_on events < completed_limit
    → Remembers n key record_ relay
    → Remembers (n + count is_going_on events) key record_ (run events relay)
unfolding run
run-Remembers [] n key record_ relay h few remembered = rw add-zero remembered
run-Remembers (request k hash ∷ events) n key record_ relay h few remembered =
    run-Remembers events n key record_ (request_publication k hash relay).1
      (step-Inv (request k hash) relay h) few (rw (request_completed k hash relay) remembered)
run-Remembers (settles i outcome ∷ events) n key record_ relay h few remembered =
    run-Remembers events n key record_ (settle i outcome relay)
      (step-Inv (settles i outcome) relay h) few (rw (settle_completed i outcome relay) remembered)
run-Remembers (goes_on i ∷ events) n key record_ relay h few remembered =
    rw (add-suc, ← suc-add)
      (run-Remembers events (suc n) key record_ (go_on i relay) (step-Inv (goes_on i) relay h)
        (omega arith) (go_on-Remembers i n key record_ relay h (omega arith) remembered))

abbrev record_of : Publication → ExecutionResult → Completed
record_of p r = record { artifact_hash = p.artifact_hash; result = r }

go_on-Remembers_new :
    (relay : Relay) (i : ℕ) (p : Publication) (r : ExecutionResult)
    → Inv relay
    → lookup i relay.publications ≡ some p
    → p.phase ≡ settled (resolved r)
    → Remembers 0 p.key (record_of p r) (go_on i relay)
unfolding go_on
go_on-Remembers_new relay i p r h found success =
    let new = h.apart p.key _ (h.owned i p found (ap is_open success)) in
    rw (found, go_on)
      (rw success (
        set_bounded_new-Holds completed_limit p.key (record_of p r) relay.completed (omega arith)
          new))

replayed :
    (n : ℕ) (key : String) (record_ : Completed) (relay : Relay)
    → Remembers n key record_ relay
    → (request_publication key record_.artifact_hash relay).0 ≡ replay record_.result
unfolding request_publication
replayed n key record_ relay remembered =
    let found = Holds-lookup n key record_ relay.completed remembered in
    rw (found, request_publication) (rw (eq_refl record_.artifact_hash) refl)

-- Once a publication has succeeded and its handler has gone on, then as long as fewer than 5000 handlers
-- go on after it, every request with its key and its artifact's hash is answered with its result,
-- whatever else interleaves; nothing is published again.
pub request_publication-replay :
    (events more : List Event) (i : ℕ) (p : Publication) (r : ExecutionResult)
    → lookup i (run events new_relay).publications ≡ some p
    → p.phase ≡ settled (resolved r)
    → count is_going_on more < completed_limit
    → (request_publication p.key p.artifact_hash (run more (go_on i (run events new_relay)))).0
      ≡ replay r
request_publication-replay events more i p r found success few =
    let h = run-Inv events in
    let after = go_on i (run events new_relay) in
    replayed (0 + count is_going_on more) p.key (record_of p r) (run more after) (
      run-Remembers more 0 p.key (record_of p r) after (go_on-Inv i (run events new_relay) h)
        (omega arith) (go_on-Remembers_new (run events new_relay) i p r h found success))
