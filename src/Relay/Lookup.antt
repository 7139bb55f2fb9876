-- ===== src/Relay/Lookup.antt =====
-- relay/server.ts: the records by which a publication is found again, and the stores that hold them.
pub mod Laws
use Prim.Native.Char.{Char, code}
use Prim.Native.String.{[] as empty, ◌∷◌ as ◌‚◌}
use governance_seatbelt.Prelude.{
  ℕ, zero, suc, String, Option, none, some, Bool, true, false, ◌&&◌, ◌||◌, ◌+◌, ltb, leb, nat_beq,
  if◌then◌else◌, ◌==◌, string_eq, Result, ok, throw, ◌>>=◌, List, [], ◌∷◌, ◌++◌,
}
use governance_seatbelt.Dict.{Dict, lookup}
use governance_seatbelt.Text.{concat, trim}
use governance_seatbelt.Json.{Json, Fields, str, obj, arr, end, field, null}
use governance_seatbelt.Json.Read.{read_optional_string}
use governance_seatbelt.Relay.Bounded.{set_bounded}
use governance_seatbelt.Relay.Redis.{Database, run_upstash_command}
use governance_seatbelt.Relay.Config.{Texts}

pub record PublishLookupRecord : Type 0 where
  pub publish_id : String
  pub artifact_url : String
  pub deployment_url : String
  pub metadata_url : String
  pub artifact_hash : String
  pub published_at : String

-- The parts of PUBLISH_ID_REGEX: `[0-9a-f]`, `-`, `[1-8]` and `[89ab]`, in upper case too.
pub data Class : Type 0 where
  hex dash version variant : Class

abbrev between : ℕ → ℕ → Char → Bool
between low high c = leb low (code c) && leb (code c) high

unfoldable pub is_in : Class → Char → Bool
is_in hex c = between 48 57 c || between 97 102 c || between 65 70 c
is_in dash c = nat_beq (code c) 45
is_in version c = between 49 56 c
is_in variant c = between 56 57 c || between 97 98 c || between 65 66 c

unfoldable pub matches : List Class → String → Bool
unfolding is_in
matches [] empty = true
matches [] (c ‚ s) = false
matches (class ∷ classes) empty = false
matches (class ∷ classes) (c ‚ s) = is_in class c && matches classes s

abbrev times : ℕ → Class → List Class
times zero class = []
times (suc n) class = class ∷ times n class

abbrev pub publish_id_regex : List Class
publish_id_regex =
    times 8 hex
    ++ dash ∷ times 4 hex
    ++ dash ∷ version ∷ times 3 hex
    ++ dash ∷ variant ∷ times 3 hex
    ++ dash ∷ times 12 hex

abbrev pub publish_lookup_key_prefix : String
publish_lookup_key_prefix = "seatbelt:publish:"

abbrev pub to_publish_lookup_key : String → String
to_publish_lookup_key publish_id = concat publish_lookup_key_prefix publish_id

-- A store over a state, by its two operations.
pub record PublishLookupStore (S : Type 0) : Type 0 where
  pub write : PublishLookupRecord → S → Result Unit × S
  pub read : String → S → Result (Option PublishLookupRecord) × S

abbrev pub lookup_limit : ℕ
lookup_limit = 10000

pub create_in_memory_publish_lookup_store : PublishLookupStore (Dict String PublishLookupRecord)
create_in_memory_publish_lookup_store = record {
  write = λ record_ records. (ok tt, set_bounded lookup_limit record_.publish_id record_ records);
  read = λ publish_id records. (ok (lookup publish_id records), records);
}

-- JSON.stringify's view of a record, members in the order of the code.
unfoldable pub to_json : PublishLookupRecord → Json
to_json r = obj (
    field "publishId" (str r.publish_id) (
      field "artifactUrl" (str r.artifact_url) (
        field "deploymentUrl" (str r.deployment_url) (
          field "metadataUrl" (str r.metadata_url) (
            field "artifactHash" (str r.artifact_hash)
              (field "publishedAt" (str r.published_at) end))))))

module _ (texts : Texts) where
  unfoldable pub normalize_publish_id : String → Option String
  unfolding matches
  normalize_publish_id value =
      let trimmed = texts.to_lower_case (trim value) in
      if matches publish_id_regex trimmed then some trimmed else none

  -- The record, unless a member is missing or the id is no id.
  abbrev complete_record :
      Option String
      → Option String
      → Option String
      → Option String
      → Option String
      → Option String
      → Option PublishLookupRecord
  complete_record (some id) (some artifact) (some deployment) (some metadata) (some hash)
        (some at) =
      elim (normalize_publish_id id) [
        | none ↦ none
        | some normalized ↦ some (record {
          publish_id = normalized;
          artifact_url = artifact;
          deployment_url = deployment;
          metadata_url = metadata;
          artifact_hash = hash;
          published_at = at;
        })
      ]
  complete_record _ _ _ _ _ _ = none

  -- The members of `value as Record<string, unknown>`; an array has none of these.
  pub parse_publish_lookup_record : Json → Option PublishLookupRecord
  parse_publish_lookup_record (obj fields) =
      complete_record (read_optional_string fields "publishId")
        (read_optional_string fields "artifactUrl") (read_optional_string fields "deploymentUrl")
        (read_optional_string fields "metadataUrl") (read_optional_string fields "artifactHash")
        (read_optional_string fields "publishedAt")
  parse_publish_lookup_record _ = none

  -- With `JSON.stringify` and `JSON.parse`.
  module _ {S : Type 0} (database : Database S) (stringify : Json → String)
      (parse : String → Option Json) where
    abbrev pub stored_record : Result Json → Result (Option PublishLookupRecord)
    stored_record (throw e) = throw e
    stored_record (ok (str text)) = elim (parse text) [
      | none ↦ ok none
      | some value ↦ ok (parse_publish_lookup_record value)
    ]
    stored_record (ok _) = ok none

    abbrev pub done : Result Json → Result Unit
    done (throw e) = throw e
    done (ok value) = ok tt

    pub create_upstash_publish_lookup_store : PublishLookupStore S
    unfolding to_json
    create_upstash_publish_lookup_store = record {
      write = λ record_ s.
          let (result, s') =
            run_upstash_command database
              ("SET" ∷ to_publish_lookup_key record_.publish_id ∷ stringify (to_json record_) ∷ [])
              s in
          (done result, s');
      read = λ publish_id s.
          let (result, s') =
            run_upstash_command database ("GET" ∷ to_publish_lookup_key publish_id ∷ []) s in
          (stored_record result, s');
    }
