-- ===== src/Relay/Payload.antt =====
-- relay/server.ts: the body of a publish request.
use governance_seatbelt.Prelude.{
  String, Option, none, some, Bool, true, false, ◌&&◌, ◌||◌, if◌then◌else◌,
}
use governance_seatbelt.Text.{concat}
use governance_seatbelt.Json.{Json, Fields, null, str, obj}
use governance_seatbelt.Json.Read.{member, as_string, as_fields}

pub record PublishRequestPayload : Type 0 where
  pub artifact : Option Json
  pub artifact_raw : Option String
  pub publish_metadata : Option Fields
  pub provenance : Option Fields

-- What is wrong with a body: it is no JSON, it is not of the schema, with the texts of zod's issues, or its
-- raw artifact is no JSON.
pub data PayloadError : Type 0 where
  invalid_json : PayloadError
  invalid_request_schema : String → PayloadError
  invalid_artifact_raw_json : PayloadError

pub data Parsed (A : Type 0) : Type 0 where
  refuse : PayloadError → Parsed A
  accept : A → Parsed A

-- `JSON.parse`, `JSON.stringify(value, null, 2)` and the texts of zod's issues.
pub record Codec : Type 0 where
  pub parse : String → Option Json
  pub stringify : Json → String
  pub issues : Json → String

-- `.optional()`, with the test of a value that is there.
abbrev optional : (Json → Bool) → String → Fields → Bool
optional p key fields = elim (member key fields) [ none ↦ true | some value ↦ p value ]

abbrev is_text : Json → Bool
is_text (str s) = true
is_text _ = false

abbrev is_object : Json → Bool
is_object (obj fields) = true
is_object _ = false

abbrev is_there : String → Fields → Bool
is_there key fields = elim (member key fields) [ none ↦ false | some value ↦ true ]

-- publishRequestSchema
pub is_publish_request : Fields → Bool
is_publish_request fields =
    optional is_text "artifactRaw" fields
    && optional is_object "publishMetadata" fields
    && optional is_object "provenance" fields
    && (is_there "artifactRaw" fields || is_there "artifact" fields)

abbrev payload_of : Fields → PublishRequestPayload
payload_of fields = record {
  artifact = member "artifact" fields;
  artifact_raw = as_string (member "artifactRaw" fields);
  publish_metadata = as_fields (member "publishMetadata" fields);
  provenance = as_fields (member "provenance" fields);
}

-- An artifact, and its text as it is published.
pub record ResolvedArtifact : Type 0 where
  pub artifact_value : Json
  pub artifact_raw_for_publish : String

-- A missing artifact, which the schema rules out here, is undefined.
abbrev or_undefined : Option Json → Json
or_undefined none = null
or_undefined (some value) = value

module _ (codec : Codec) where
  pub parse_publish_payload : String → Parsed PublishRequestPayload
  unfolding is_publish_request
  parse_publish_payload raw_body = elim (codec.parse raw_body) [
    | none ↦ refuse invalid_json
    | some (obj fields) ↦
        if is_publish_request fields
        then accept (payload_of fields)
        else refuse (invalid_request_schema (codec.issues (obj fields)))
    | some value ↦ refuse (invalid_request_schema (codec.issues value))
  ]

  pub resolve_artifact : PublishRequestPayload → Parsed ResolvedArtifact
  resolve_artifact payload = elim payload.artifact_raw [
    | some raw ↦ elim (codec.parse raw) [
      | none ↦ refuse invalid_artifact_raw_json
      | some value ↦ accept (record { artifact_value = value; artifact_raw_for_publish = raw })
    ]
    | none ↦
        let value = or_undefined payload.artifact in
        accept (record {
          artifact_value = value;
          artifact_raw_for_publish = concat (codec.stringify value) "\n";
        })
  ]
