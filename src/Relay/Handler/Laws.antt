-- ===== src/Relay/Handler/Laws.antt =====
-- relay/server.ts: what a publish request may lead to.
use governance_seatbelt.Prelude.{
  nat_eq, string_eq, ℕ, String, Option, none, some, List, ◌≡◌, refl, ok, false, arith,
}
use governance_seatbelt.Dict.{lookup}
use governance_seatbelt.Json.{Json}
use governance_seatbelt.Publish.Artifact.{validate_publish_artifact}
use governance_seatbelt.Relay.Idempotency.{
  Relay, Event, run, new_relay, Decision, Publication, completed_conflict, in_flight_conflict,
  replay, await, start, request_publication, begin,
}
use governance_seatbelt.Relay.Idempotency.Invariant.{is_open, IsOpenFor}
use governance_seatbelt.Relay.Idempotency.Answers.{
  IsJustified, awaited, started, request_publication-justified,
}
use governance_seatbelt.Relay.Payload.{
  Codec, PublishRequestPayload, Parsed, refuse, accept, ResolvedArtifact, parse_publish_payload,
  resolve_artifact,
}
use governance_seatbelt.Relay.Handler
use governance_seatbelt.Relay.Handler.{
  Reply, Start, PublishAction, respond, wait, publish, action_of, decide, handle_publish,
  idempotency_key_of, decide_validated, decide_resolved, decide_parsed,
}

module _ (codec : Codec) (natural : String → Option ℕ) (compute_artifact_hash : String → String)
    (artifact_refused : Json → Reply) (header : Option String) (relay : Relay) where
  -- The key and the hash of what is published, or waited for, are those of a body's artifact.
  pub record IsOf (raw_body : String) (s : Start) : Type 0 where
    pub payload_parsed : parse_publish_payload codec raw_body ≡ accept s.payload
    pub resolved_artifact : ResolvedArtifact
    pub artifact_resolved : resolve_artifact codec s.payload ≡ accept resolved_artifact
    pub artifact_valid :
        validate_publish_artifact natural resolved_artifact.artifact_value
        ≡ some s.validated_artifact
    pub raw_same : s.artifact_raw ≡ resolved_artifact.artifact_raw_for_publish
    pub hash_same : s.artifact_hash ≡ compute_artifact_hash s.artifact_raw
    pub key_same :
        s.idempotency_key
        ≡ idempotency_key_of codec natural compute_artifact_hash artifact_refused header
            s.artifact_hash

  pub data IsHandled (raw_body : String) : PublishAction × Relay → Type 0 where
    answered : (reply : Reply) → IsHandled raw_body (respond reply, relay)
    waiting :
        (s : Start) (i : ℕ)
        → IsOf raw_body s
        → IsOpenFor relay.publications s.idempotency_key s.artifact_hash i
        → IsHandled raw_body (wait i, relay)
    publishing :
        (s : Start)
        → IsOf raw_body s
        → ((j : ℕ) (p : Publication)
            → lookup j relay.publications ≡ some p
            → p.key ≡ s.idempotency_key
            → is_open p.phase ≡ false)
        → lookup s.idempotency_key relay.completed ≡ none
        → IsHandled raw_body (publish s, begin s.idempotency_key s.artifact_hash relay)

-- The maps after a decision.
next_of : String → String → Relay → Decision → Relay
next_of key hash relay (start i) = begin key hash relay
next_of key hash relay (replay r) = relay
next_of key hash relay (await i) = relay
next_of key hash relay (completed_conflict h) = relay
next_of key hash relay (in_flight_conflict h) = relay

request_publication_next :
    (key hash : String) (relay : Relay)
    → (request_publication key hash relay).1
      ≡ next_of key hash relay (request_publication key hash relay).0
unfolding request_publication next_of
request_publication_next key hash relay = ground arith

module _ (codec : Codec) (natural : String → Option ℕ) (compute_artifact_hash : String → String)
    (artifact_refused : Json → Reply) (header : Option String) (raw_body : String) where
  with_promise :
      (relay : Relay) (s : Start) (i : ℕ)
      → IsOf codec natural compute_artifact_hash artifact_refused header relay raw_body s
      → IsOf codec natural compute_artifact_hash artifact_refused header relay raw_body
          (record s { promise = i })
  with_promise relay s i of_body = record {
    payload_parsed = of_body.payload_parsed;
    resolved_artifact = of_body.resolved_artifact;
    artifact_resolved = of_body.artifact_resolved;
    artifact_valid = of_body.artifact_valid;
    raw_same = of_body.raw_same;
    hash_same = of_body.hash_same;
    key_same = of_body.key_same;
  }

  handled :
      (relay : Relay) (s : Start) (decision : Decision)
      → IsOf codec natural compute_artifact_hash artifact_refused header relay raw_body s
      → IsJustified s.idempotency_key s.artifact_hash relay decision
      → IsHandled codec natural compute_artifact_hash artifact_refused header relay raw_body
          (action_of s decision, next_of s.idempotency_key s.artifact_hash relay decision)
  unfolding action_of next_of
  handled relay s (replay r) of_body why = answered _
  handled relay s (completed_conflict other) of_body why = answered _
  handled relay s (in_flight_conflict other) of_body why = answered _
  handled relay s (await i) of_body (awaited opened) = waiting s i of_body opened
  handled relay s (start i) of_body (started closed new unused opened) =
      publishing (record s { promise = i }) (with_promise relay s i of_body) closed new

  decide-IsHandled :
      (events : List Event) (s : Start)
      → IsOf codec natural compute_artifact_hash artifact_refused header
          (run events new_relay)
          raw_body
          s
      → IsHandled codec natural compute_artifact_hash artifact_refused header
          (run events new_relay)
          raw_body
          (decide codec natural compute_artifact_hash artifact_refused s (run events new_relay))
  unfolding decide
  decide-IsHandled events s of_body =
      let relay = run events new_relay in
      rw (request_publication_next s.idempotency_key s.artifact_hash relay) (
        handled relay s (request_publication s.idempotency_key s.artifact_hash relay).0 of_body
          (request_publication-justified events s.idempotency_key s.artifact_hash))

-- In every state that the relay can reach, a publish request whose body has been read is answered at once and changes
-- nothing, or waits for an unfinished publication of its own artifact, or starts a publication. It does the last two
-- only for a body that parses, with an artifact that is valid, under the key of its header or else
-- the hash of the artifact; and it starts one only while no publication of the key is unfinished or
-- on record.
pub handle_publish-IsHandled :
    (codec : Codec) (natural : String → Option ℕ) (compute_artifact_hash : String → String)
    (artifact_refused : Json → Reply) (max_body_bytes : ℕ) (header : Option String)
    (raw_body : String) (events : List Event)
    → IsHandled codec natural compute_artifact_hash artifact_refused header
        (run events new_relay)
        raw_body
        (handle_publish codec natural compute_artifact_hash artifact_refused max_body_bytes header
          (ok raw_body)
          (run events new_relay))
unfolding handle_publish
handle_publish-IsHandled codec natural compute_artifact_hash artifact_refused max_body_bytes header
      raw_body events =
    parsed (parse_publish_payload codec raw_body) refl
  where
    relay : Relay
    relay = run events new_relay

    validated :
        (payload : PublishRequestPayload) (r : ResolvedArtifact)
        → parse_publish_payload codec raw_body ≡ accept payload
        → resolve_artifact codec payload ≡ accept r
        → (v : Option Json) → validate_publish_artifact natural r.artifact_value ≡ v
        → IsHandled codec natural compute_artifact_hash artifact_refused header relay raw_body (
            decide_validated codec natural compute_artifact_hash artifact_refused header payload r v
              relay)
    validated payload r p q none e = answered _
    validated payload r p q (some v) e =
        decide-IsHandled codec natural compute_artifact_hash artifact_refused header raw_body events
          (Handler.started codec natural compute_artifact_hash artifact_refused header payload r v)
          (record {
            payload_parsed = p;
            resolved_artifact = r;
            artifact_resolved = q;
            artifact_valid = e;
            raw_same = refl;
            hash_same = refl;
            key_same = refl;
          })

    resolved :
        (payload : PublishRequestPayload)
        → parse_publish_payload codec raw_body ≡ accept payload
        → (r : Parsed ResolvedArtifact) → resolve_artifact codec payload ≡ r
        → IsHandled codec natural compute_artifact_hash artifact_refused header relay raw_body (
            decide_resolved codec natural compute_artifact_hash artifact_refused header payload r
              relay)
    resolved payload p (refuse error) e = answered _
    resolved payload p (accept r) e = validated payload r p e _ refl

    parsed :
        (p : Parsed PublishRequestPayload)
        → parse_publish_payload codec raw_body ≡ p
        → IsHandled codec natural compute_artifact_hash artifact_refused header relay raw_body
            (decide_parsed codec natural compute_artifact_hash artifact_refused header p relay)
    parsed (refuse error) e = answered _
    parsed (accept payload) e = resolved payload e _ refl
