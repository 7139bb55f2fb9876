-- ===== src/Relay/Execution.antt =====
-- relay/server.ts: what a publication does, and how its promise settles.
use governance_seatbelt.Prelude.{
  ℕ, String, Option, none, some, Bool, true, false, if◌then◌else◌, Result, Exception, ok, throw,
  from_option, ◌==◌, string_eq,
}
use governance_seatbelt.Json.{Json, Fields, bool, str, obj, end, field}
use governance_seatbelt.Json.Read.{member, as_string, as_fields, read_optional_string, set_member}
use governance_seatbelt.Publish.Artifact.{as_natural}
use governance_seatbelt.Publish.Authenticity.{
  Crypto, PublishAuthenticityEnvelope, sign_publish_metadata,
}
use governance_seatbelt.Relay.Env.{Env}
use governance_seatbelt.Relay.Idempotency.{
  ExecutionResult, Outcome, PublishError, resolved, rejected, timed_out, failed, unknown,
}
use governance_seatbelt.Relay.Lookup.{PublishLookupRecord}
use governance_seatbelt.Relay.Payload.{PublishRequestPayload}

pub record RelayPublishLogEntry : Type 0 where
  pub publish_id : String
  pub published_at : String
  pub artifact_hash : String
  pub schema_version : ℕ
  pub simulation_type : String
  pub proposal_id : String
  pub chain_id : ℕ
  pub idempotency_key : String
  pub relay_version : String
  pub source_publish_id : Option String
  pub source_published_at : Option String
  pub provenance : Option Fields
  pub authenticity : Option PublishAuthenticityEnvelope

-- RelayPublisherResult
pub record PublisherResult : Type 0 where
  pub deployment_url : String
  pub artifact_url : String
  pub metadata_url : String

-- The members of an entry that its signature is over, as the signing reads them.
abbrev signed_view : RelayPublishLogEntry → Fields
signed_view entry = field "publish_id" (str entry.publish_id) (
    field "published_at" (str entry.published_at) (
      field "artifact_hash" (str entry.artifact_hash)
        (field "relay_version" (str entry.relay_version) end)))

-- `createPublishMetadata`: a random id and the time.
pub record Metadata : Type 0 where
  pub publish_id : String
  pub published_at : String

abbrev in_object : String → Option Fields → Option Fields
in_object key none = none
in_object key (some fields) = as_fields (member key fields)

-- `validatedArtifact.report.structuredReport.metadata`
abbrev artifact_metadata : Json → Fields
artifact_metadata (obj result) =
    from_option end
      (in_object "metadata" (in_object "structuredReport" (in_object "report" (some result))))
artifact_metadata _ = end

abbrev optional_text : Option Fields → String → Option String
optional_text none key = none
optional_text (some fields) key = read_optional_string fields key

-- The entry before it is signed.
abbrev unsigned_entry :
    (String → Option ℕ)
    → Json
    → Metadata
    → String
    → String
    → String
    → PublishRequestPayload
    → RelayPublishLogEntry
unsigned_entry natural validated_artifact publish_metadata artifact_hash idempotency_key
      relay_version payload =
    let metadata = artifact_metadata validated_artifact in
    record {
      publish_id = publish_metadata.publish_id;
      published_at = publish_metadata.published_at;
      artifact_hash = artifact_hash;
      schema_version = from_option 0 (as_natural natural (member "schemaVersion" metadata));
      simulation_type = from_option "" (as_string (member "simulationType" metadata));
      proposal_id = from_option "" (as_string (member "proposalId" metadata));
      chain_id = from_option 0 (as_natural natural (member "chainId" metadata));
      idempotency_key = idempotency_key;
      relay_version = relay_version;
      source_publish_id = optional_text payload.publish_metadata "publish_id";
      source_published_at = optional_text payload.publish_metadata "published_at";
      provenance = payload.provenance;
      authenticity = none;
    }

pub build_relay_publish_log_entry :
    Crypto
    → (String → Option ℕ)
    → Env
    → Json
    → Metadata
    → String
    → String
    → String
    → PublishRequestPayload
    → Result RelayPublishLogEntry
build_relay_publish_log_entry crypto natural env validated_artifact publish_metadata artifact_hash
      idempotency_key relay_version payload =
    let entry =
      unsigned_entry natural validated_artifact publish_metadata artifact_hash idempotency_key
        relay_version payload in
    elim (sign_publish_metadata crypto (signed_view entry) env) [
      | throw e ↦ throw e
      | ok none ↦ ok entry
      | ok (some envelope) ↦ ok (record entry { authenticity = some envelope })
    ]

abbrev pub lookup_record : RelayPublishLogEntry → PublisherResult → PublishLookupRecord
lookup_record entry published = record {
  publish_id = entry.publish_id;
  artifact_url = published.artifact_url;
  deployment_url = published.deployment_url;
  metadata_url = published.metadata_url;
  artifact_hash = entry.artifact_hash;
  published_at = entry.published_at;
}

-- The id is told only if the record was written, so that it can be found; `if (responseBody.…)`.
abbrev with_text : String → Option String → Fields → Fields
with_text key none fields = fields
with_text key (some s) fields = if s == "" then fields else set_member key (str s) fields

pub response_body : Bool → RelayPublishLogEntry → PublisherResult → Option String → Json
response_body write_succeeded entry published viewer_url = obj (
    with_text "viewerUrl" viewer_url (
      with_text "publishId" (if write_succeeded then some entry.publish_id else none) (
        field "publishIdResolvable" (bool write_succeeded) (
          field "idempotencyKey" (str entry.idempotency_key) (
            field "artifactHash" (str entry.artifact_hash) (
              field "deploymentUrl" (str published.deployment_url) (
                field "artifactUrl" (str published.artifact_url)
                  (field "metadataUrl" (str published.metadata_url) end))))))))

-- A publisher's promise resolves, or rejects with an error.
pub data Published : Type 0 where
  published : PublisherResult → Published
  publisher_failed : PublishError → Published

-- How the promise of a publication settles, by its entry, what the publisher and the store answer, and the
-- viewer's address; with the messages of the errors that are thrown before.
pub execution_outcome :
    (Exception → String)
    → Result RelayPublishLogEntry
    → Published
    → Result Unit
    → Option String
    → Outcome
unfolding response_body
execution_outcome message_of (throw e) answer written viewer_url = rejected (failed (message_of e))
execution_outcome message_of (ok entry) (publisher_failed error) written viewer_url = rejected error
execution_outcome message_of (ok entry) (published result) written viewer_url = resolved (record {
  status = 201;
  body = response_body (elim written [ ok _ ↦ true | throw _ ↦ false ]) entry result viewer_url;
})

abbrev failure : ℕ → String → String → ExecutionResult
failure status error message = record {
  status = status;
  body = obj (field "error" (str error) (field "message" (str message) end));
}

pub normalize_publish_error : PublishError → ExecutionResult
normalize_publish_error (timed_out message) = failure 504 "publish_timeout" message
normalize_publish_error (failed message) = failure 502 "publish_failed" message
normalize_publish_error unknown = failure 502 "publish_failed" "Unknown publish error"
