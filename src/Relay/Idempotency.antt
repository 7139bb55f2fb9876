-- ===== src/Relay/Idempotency.antt =====
-- relay/server.ts: publications under idempotency keys. A handler is interrupted only where it awaits,
-- so its parts between two awaits are the steps, and their order is free: a request comes in, the
-- promise of a publication settles, the handler that started a publication goes on after it.
pub mod Invariant
mod Steps
pub mod Laws
pub mod Answers
pub mod Kept
use governance_seatbelt.Prelude.{
  ℕ, suc, String, Option, none, some, List, [], ◌∷◌, Bool, true, false, if◌then◌else◌, ◌==◌, nat_eq,
  string_eq,
}
use governance_seatbelt.Dict.{Dict, lookup, put, remove}
use governance_seatbelt.Json.{Json}
use governance_seatbelt.Relay.Bounded.{set_bounded}

-- RelayExecutionResult
pub record ExecutionResult : Type 0 where
  pub status : ℕ
  pub body : Json

-- What a publisher throws: a RelayPublishTimeoutError, another Error, or anything else.
pub data PublishError : Type 0 where
  timed_out failed : String → PublishError
  unknown : PublishError

-- How the promise of a publication settles.
pub data Outcome : Type 0 where
  resolved : ExecutionResult → Outcome
  rejected : PublishError → Outcome

pub record Completed : Type 0 where
  pub artifact_hash : String
  pub result : ExecutionResult

-- With the promise by its number.
pub record InFlight : Type 0 where
  pub artifact_hash : String
  pub promise : ℕ

-- A publication is pending, settled, or settled and seen by the handler that started it.
pub data Phase : Type 0 where
  pending : Phase
  settled concluded : Outcome → Phase

pub record Publication : Type 0 where
  pub key : String
  pub artifact_hash : String
  pub phase : Phase

-- The two maps of the handler, and the publications that it has started, by number.
pub record Relay : Type 0 where
  pub completed : Dict String Completed
  pub in_flight : Dict String InFlight
  pub publications : Dict ℕ Publication
  pub next : ℕ

abbrev pub new_relay : Relay
new_relay = record { completed = []; in_flight = []; publications = []; next = 0 }

abbrev pub completed_limit : ℕ
completed_limit = 5000

-- What a request is answered with, or which promise it waits for.
pub data Decision : Type 0 where
  -- 409, with `existingArtifactHash`
  completed_conflict in_flight_conflict : String → Decision
  replay : ExecutionResult → Decision
  await : ℕ → Decision
  start : ℕ → Decision

abbrev pub begin : String → String → Relay → Relay
begin key artifact_hash relay = record {
  completed = relay.completed;
  in_flight =
      put key (record { artifact_hash = artifact_hash; promise = relay.next }) relay.in_flight;
  publications =
      put relay.next (record { key = key; artifact_hash = artifact_hash; phase = pending })
        relay.publications;
  next = suc relay.next;
}

-- A valid request with an idempotency key and the hash of its artifact, up to its first await.
unfoldable pub request_publication : String → String → Relay → Decision × Relay
request_publication key artifact_hash relay = elim (lookup key relay.completed) [
  | some record_ ↦
      if record_.artifact_hash == artifact_hash
      then (replay record_.result, relay)
      else (completed_conflict record_.artifact_hash, relay)
  | none ↦ elim (lookup key relay.in_flight) [
    | some flying ↦
        if flying.artifact_hash == artifact_hash
        then (await flying.promise, relay)
        else (in_flight_conflict flying.artifact_hash, relay)
    | none ↦ (start relay.next, begin key artifact_hash relay)
  ]
]

abbrev pub set_phase : ℕ → Publication → Phase → Relay → Relay
set_phase promise publication phase relay = record relay {
  publications = put promise (record publication { phase = phase }) relay.publications;
}

-- A pending publication resolves or rejects; a promise settles once.
unfoldable pub settle : ℕ → Outcome → Relay → Relay
settle promise outcome relay = elim (lookup promise relay.publications) [
  | none ↦ relay
  | some publication ↦ elim publication.phase [
    | pending ↦ set_phase promise publication (settled outcome) relay
    | settled _ ↦ relay
    | concluded _ ↦ relay
  ]
]

abbrev pub complete : Publication → Outcome → Dict String Completed → Dict String Completed
complete publication (rejected error) completed = completed
complete publication (resolved result) completed =
    set_bounded completed_limit publication.key
      (record { artifact_hash = publication.artifact_hash; result = result }) completed

abbrev pub conclude : ℕ → Publication → Outcome → Relay → Relay
conclude promise publication outcome relay = record {
  completed = complete publication outcome relay.completed;
  in_flight = remove publication.key relay.in_flight;
  publications = put promise (record publication { phase = concluded outcome }) relay.publications;
  next = relay.next;
}

-- The handler that started a publication, after `await executionPromise`.
unfoldable pub go_on : ℕ → Relay → Relay
go_on promise relay = elim (lookup promise relay.publications) [
  | none ↦ relay
  | some publication ↦ elim publication.phase [
    | pending ↦ relay
    | settled outcome ↦ conclude promise publication outcome relay
    | concluded _ ↦ relay
  ]
]

pub data Event : Type 0 where
  request : String → String → Event
  settles : ℕ → Outcome → Event
  goes_on : ℕ → Event

unfoldable pub step : Event → Relay → Relay
unfolding request_publication settle go_on
step (request key artifact_hash) relay = (request_publication key artifact_hash relay).1
step (settles promise outcome) relay = settle promise outcome relay
step (goes_on promise) relay = go_on promise relay

-- Any interleaving.
unfoldable pub run : List Event → Relay → Relay
unfolding step
run [] relay = relay
run (event ∷ events) relay = run events (step event relay)
