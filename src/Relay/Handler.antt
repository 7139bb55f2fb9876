-- ===== src/Relay/Handler.antt =====
-- relay/server.ts: the handler of the relay, in its parts between two awaits.
pub mod Routing
pub mod Laws
use governance_seatbelt.Prelude.{
  ℕ, zero, suc, String, Option, none, some, List, [], ◌∷◌, Bool, true, false, ◌&&◌, ◌||◌, not,
  if◌then◌else◌, ◌==◌, string_eq, Result, ok, throw, from_option, length, payload_too_large,
  Exception,
}
use governance_seatbelt.Dict.{Dict, lookup}
use governance_seatbelt.Text.{concat, to_decimal}
use governance_seatbelt.Json.{Json, Fields, bool, num, str, obj, end, field}
use governance_seatbelt.Publish.Artifact.{validate_publish_artifact}
use governance_seatbelt.Relay.Env.{Env, read_non_empty_env}
use governance_seatbelt.Relay.Idempotency.{
  Relay, ExecutionResult, Outcome, resolved, rejected, Decision, completed_conflict,
  in_flight_conflict, replay, await, start, request_publication,
}
use governance_seatbelt.Relay.Payload.{
  PublishRequestPayload, PayloadError, invalid_json, invalid_request_schema,
  invalid_artifact_raw_json, Parsed, refuse, accept, Codec, ResolvedArtifact, parse_publish_payload,
  resolve_artifact,
}
use governance_seatbelt.Relay.Execution.{normalize_publish_error}

pub record Reply : Type 0 where
  pub status : ℕ
  pub body : Json
  pub headers : Dict String String

abbrev pub error_body : String → String → Fields → Json
error_body error message more = obj (field "error" (str error) (field "message" (str message) more))

abbrev pub error_reply : ℕ → String → String → Reply
error_reply status error message = record {
  status = status;
  body = error_body error message end;
  headers = [];
}

-- What a publish request leads to: an answer, the wait for a publication that has been started, or a
-- publication under a number, with what it is given.
pub record Start : Type 0 where
  pub promise : ℕ
  pub validated_artifact : Json
  pub artifact_raw : String
  pub artifact_hash : String
  pub idempotency_key : String
  pub payload : PublishRequestPayload

pub data PublishAction : Type 0 where
  respond : Reply → PublishAction
  wait : ℕ → PublishAction
  publish : Start → PublishAction

abbrev pub payload_reply : PayloadError → Reply
payload_reply invalid_json = error_reply 400 "invalid_json" "Request body must be valid JSON."
payload_reply (invalid_request_schema issues) = error_reply 400 "invalid_request_schema" issues
payload_reply invalid_artifact_raw_json =
    error_reply 400 "invalid_artifact_raw_json" "artifactRaw must be a valid JSON string."

abbrev conflict_reply : String → String → String → String → Reply
conflict_reply message key existing provided = record {
  status = 409;
  body = error_body "idempotency_conflict" message (
      field "idempotencyKey" (str key) (
        field "existingArtifactHash" (str existing)
          (field "providedArtifactHash" (str provided) end)));
  headers = [];
}

abbrev replay_headers : Dict String String
replay_headers = ("x-idempotent-replay", "true") ∷ []

abbrev result_reply : Dict String String → ExecutionResult → Reply
result_reply headers result = record {
  status = result.status;
  body = result.body;
  headers = headers;
}

-- After `await inFlightRecord.promise`, and after `await executionPromise` of the handler's own.
pub joined_reply : Outcome → Reply
joined_reply (resolved result) = result_reply replay_headers result
joined_reply (rejected error) = result_reply replay_headers (normalize_publish_error error)

pub own_reply : Outcome → Reply
own_reply (resolved result) = result_reply [] result
own_reply (rejected error) = result_reply [] (normalize_publish_error error)

-- The handler's answer by what the maps hold for the key.
pub action_of : Start → Decision → PublishAction
action_of s (completed_conflict existing) = respond (
    conflict_reply "Idempotency key already exists for a different artifact hash." s.idempotency_key
      existing s.artifact_hash)
action_of s (in_flight_conflict existing) = respond (
    conflict_reply "Idempotency key is already in-flight for a different artifact hash."
      s.idempotency_key existing s.artifact_hash)
action_of s (replay result) = respond (result_reply replay_headers result)
action_of s (await promise) = wait promise
action_of s (start promise) = publish (record s { promise = promise })

-- `error.message === 'PAYLOAD_TOO_LARGE'`, or any other error.
abbrev body_reply : ℕ → Exception → Reply
body_reply max_body_bytes payload_too_large =
    error_reply 413 "payload_too_large"
      (concat "Publish payload exceeds " (concat (to_decimal max_body_bytes) " bytes."))
body_reply max_body_bytes e = error_reply 400 "invalid_request" "Failed to read publish payload."

-- With the reading of JSON and of its numbers, the hash of a text, and the reply for an artifact that is
-- refused, which has zod's texts.
module _ (codec : Codec) (natural : String → Option ℕ) (compute_artifact_hash : String → String)
    (artifact_refused : Json → Reply) where
  -- `idempotency-key`, or else the hash.
  abbrev pub idempotency_key_of : Option String → String → String
  idempotency_key_of none artifact_hash = artifact_hash
  idempotency_key_of (some header) artifact_hash =
      from_option artifact_hash (read_non_empty_env (("value", header) ∷ []) "value")

  abbrev pub started : Option String → PublishRequestPayload → ResolvedArtifact → Json → Start
  started header payload resolved_artifact validated_artifact =
      let hash = compute_artifact_hash resolved_artifact.artifact_raw_for_publish in
      record {
        promise = 0;
        validated_artifact = validated_artifact;
        artifact_raw = resolved_artifact.artifact_raw_for_publish;
        artifact_hash = hash;
        idempotency_key = idempotency_key_of header hash;
        payload = payload;
      }

  pub decide : Start → Relay → PublishAction × Relay
  unfolding action_of
  decide s relay =
      let (decision, next) = request_publication s.idempotency_key s.artifact_hash relay in
      (action_of s decision, next)

  abbrev pub decide_validated :
      Option String
      → PublishRequestPayload
      → ResolvedArtifact
      → Option Json
      → Relay
      → PublishAction × Relay
  decide_validated header payload resolved_artifact none relay =
      (respond (artifact_refused resolved_artifact.artifact_value), relay)
  decide_validated header payload resolved_artifact (some validated_artifact) relay =
      decide (started header payload resolved_artifact validated_artifact) relay

  abbrev pub decide_resolved :
      Option String
      → PublishRequestPayload
      → Parsed ResolvedArtifact
      → Relay
      → PublishAction × Relay
  decide_resolved header payload (refuse error) relay = (respond (payload_reply error), relay)
  decide_resolved header payload (accept resolved_artifact) relay =
      decide_validated header payload resolved_artifact
        (validate_publish_artifact natural resolved_artifact.artifact_value) relay

  abbrev pub decide_parsed :
      Option String → Parsed PublishRequestPayload → Relay → PublishAction × Relay
  decide_parsed header (refuse error) relay = (respond (payload_reply error), relay)
  decide_parsed header (accept payload) relay =
      decide_resolved header payload (resolve_artifact codec payload) relay

  -- The part of the handler after the body is read, up to its next await.
  pub handle_publish : ℕ → Option String → Result String → Relay → PublishAction × Relay
  unfolding decide
  handle_publish max_body_bytes header (throw e) relay =
      (respond (body_reply max_body_bytes e), relay)
  handle_publish max_body_bytes header (ok raw_body) relay =
      decide_parsed header (parse_publish_payload codec raw_body) relay
