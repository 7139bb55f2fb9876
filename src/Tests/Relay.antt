-- ===== src/Tests/Relay.antt =====
-- The relay's handler and its stores, on concrete inputs.
use governance_seatbelt.Prelude.{
  ℕ, zero, String, Option, none, some, List, [], ◌∷◌, true, ◌≡◌, refl, ◌≤◌, arith, ok, nat_eq,
  string_eq, ◌==◌, if◌then◌else◌, eq_iff, false≢true, ◌+◌, max,
}
use governance_seatbelt.Text.{concat, is_blank, trim}
use governance_seatbelt.Dict.{Dict, lookup, put}
use governance_seatbelt.Dict.Laws.{lookup-put_same}
use governance_seatbelt.Json.Read.{member, count_items}
use governance_seatbelt.Json.{Json, Fields, null, str, num, arr, obj, nil, cons, end, field}
use governance_seatbelt.Publish.Artifact.{validate_publish_artifact, is_hex_address, is_decimal}
use governance_seatbelt.Relay.Config.{RelayConfig, Texts}
use governance_seatbelt.Relay.RateLimit.{Buckets, allowed, refused, admit}
use governance_seatbelt.Relay.RateLimit.Laws.{Arrival, admit_all, judge_all, admit_all-judge_all}
use governance_seatbelt.Relay.RateLimit.Limits.{
  allowed_to, buckets_after, allowed_to-le, admit-refused-retry,
}
use governance_seatbelt.Relay.Idempotency.{
  ExecutionResult, resolved, rejected, timed_out, Publication, settled, new_relay, Event, request,
  settles, goes_on, run, go_on, request_publication, replay,
}
use governance_seatbelt.Relay.Idempotency.Laws.{run-exclusive}
use governance_seatbelt.Relay.Idempotency.Answers.{IsJustified, request_publication-justified}
use governance_seatbelt.Relay.Idempotency.Kept.{request_publication-replay}
use governance_seatbelt.Relay.Redis.{Database, Answer, run_upstash_command}
use governance_seatbelt.Relay.Lookup.{
  PublishLookupRecord, to_json, normalize_publish_id, create_upstash_publish_lookup_store,
}
use governance_seatbelt.Relay.Lookup.Laws.{
  KeepsValues, IsLookupStore, IsReadable, create_upstash_publish_lookup_store-IsLookupStore,
}
use governance_seatbelt.Relay.Body.{chunk, no_value, read_request_body}
use governance_seatbelt.Relay.Body.Laws.{bytes_of, read_request_body_lem}
use governance_seatbelt.Relay.Payload.{Codec}
use governance_seatbelt.Relay.Handler.{Reply, handle_publish}
use governance_seatbelt.Relay.Handler.Laws.{IsHandled, handle_publish-IsHandled}

abbrev config : RelayConfig
config = record {
  relay_version = "phase1c-mvp";
  max_body_bytes = 100;
  rate_limit_enabled = true;
  rate_limit_window_ms = 1000;
  rate_limit_max_requests = 2;
  deploy_timeout_ms = 180000;
  port = 8787;
}

abbrev at : String → ℕ → Arrival
at client at_ms = record { client = client; at_ms = at_ms }

abbrev arrivals : List Arrival
arrivals = at "a" 0 ∷ at "b" 10 ∷ at "a" 20 ∷ at "a" 30 ∷ at "a" 990 ∷ []

admit_all-judge_all_example :
    admit_all config [] arrivals ≡ judge_all config (λ k. lookup k []) arrivals
admit_all-judge_all_example =
    admit_all-judge_all config 0 [] arrivals refl tt
      (omega arith, (omega arith, (omega arith, (omega arith, (omega arith, tt)))))

answers_test :
    admit_all config [] arrivals ≡ allowed ∷ allowed ∷ allowed ∷ refused 1 ∷ refused 1 ∷ []
unfolding admit_all admit lookup put
answers_test = refl

allowed_to-le_example : allowed_to "a" arrivals (admit_all config [] arrivals) ≤ 2 + max 1 2
allowed_to-le_example = allowed_to-le config "a" 0 1000 [] arrivals refl tt (omega arith) (
  omega arith,
  omega arith,
  (
    omega arith,
    omega arith,
    (omega arith, omega arith, (omega arith, omega arith, (omega arith, omega arith, tt))),
  ),
)

abbrev full : Buckets
full = ("a", record { count = 2; window_start_ms = 0 }) ∷ []

admit-refused-retry_example :
    (admit config "a" 1030 (buckets_after config (admit config "a" 30 full).1 (at "b" 40 ∷ []))).0
    ≡ allowed
unfolding admit lookup put
admit-refused-retry_example =
    admit-refused-retry config "a" 30 1030 1 full (at "b" 40 ∷ []) refl (refl, tt) refl
      ((λ e. false≢true ((eq_iff "b" "a").1 e)), tt) (omega arith)

abbrev published : ExecutionResult
published = record { status = 201; body = null }

abbrev events : List Event
events = request "key" "hash" ∷ request "key" "other" ∷ settles 0 (resolved published) ∷ []

abbrev settled_one : Publication
settled_one = record { key = "key"; artifact_hash = "hash"; phase = settled (resolved published) }

settled_one_there : lookup 0 (run events new_relay).publications ≡ some settled_one
unfolding run request_publication lookup put
settled_one_there = refl

run-exclusive_example : zero ≡ 0
run-exclusive_example =
    run-exclusive events 0 0 settled_one settled_one settled_one_there settled_one_there refl refl
      refl

request_publication-justified_example :
    IsJustified "key" "hash"
      (run events new_relay)
      (request_publication "key" "hash" (run events new_relay)).0
request_publication-justified_example = request_publication-justified events "key" "hash"

abbrev more : List Event
more =
    request "key" "other"
    ∷ request "next" "other"
    ∷ settles 1 (rejected (timed_out ""))
    ∷ goes_on 1
    ∷ []

request_publication-replay_example :
    (request_publication "key" "hash" (run more (go_on 0 (run events new_relay)))).0
    ≡ replay published
request_publication-replay_example =
    request_publication-replay events more 0 settled_one published settled_one_there refl
      (omega arith)

abbrev texts : Texts
texts = record { floor_positive = λ s. none; to_lower_case = λ s. s }

-- A database that answers `SET` and `GET`.
abbrev answer : Json → Option Answer
answer value = some (record { is_ok = true; body = some (obj (field "result" value end)) })

abbrev or_null : Option String → Json
or_null none = null
or_null (some s) = str s

post : List String → Dict String String → Option Answer × Dict String String
post (command ∷ key ∷ []) s = (answer (or_null (lookup key s)), s)
post (command ∷ key ∷ value ∷ rest) s = (answer (str "OK"), put key value s)
post _ s = (none, s)

abbrev database : Database (Dict String String)
database = record { post = post }

database-KeepsValues : KeepsValues database
unfolding run_upstash_command post
database-KeepsValues = record { get_set = λ key value s h. rw (lookup-put_same key value s) refl }

abbrev found : PublishLookupRecord
found = record {
  publish_id = "123e4567-e89b-12d3-a456-426614174000";
  artifact_url = "https://seatbelt.vercel.app/simulation-results.json";
  deployment_url = "https://seatbelt.vercel.app";
  metadata_url = "https://seatbelt.vercel.app/publish-metadata.json";
  artifact_hash = "hash";
  published_at = "2026-01-01T00:00:00.000Z";
}

abbrev stringify : Json → String
stringify value = "text"

abbrev parse : String → Option Json
parse text = if text == "text" then some (to_json found) else none

create_upstash_publish_lookup_store-IsLookupStore_example :
    IsLookupStore
      (IsReadable texts stringify parse)
      (λ s. Unit)
      (create_upstash_publish_lookup_store texts database stringify parse)
create_upstash_publish_lookup_store-IsLookupStore_example =
    create_upstash_publish_lookup_store-IsLookupStore texts database stringify parse
      database-KeepsValues

-- A record that the promise is about.
found-IsReadable : IsReadable texts stringify parse found
unfolding normalize_publish_id to_json is_blank trim
found-IsReadable = (
  record {
    id_kept = refl;
    id_given = refl;
    artifact_given = refl;
    deployment_given = refl;
    metadata_given = refl;
    hash_given = refl;
    at_given = refl;
  },
  refl,
)

abbrev decode : List ℕ → String
decode [] = ""
decode (b ∷ bytes) = concat "." (decode bytes)

read_request_body_lem_example :
    read_request_body decode
      (record {
        content_length = some 3;
        body = some (chunk (1 ∷ 2 ∷ []) ∷ no_value ∷ chunk (3 ∷ []) ∷ []);
      })
      3
    ≡ ok "..."
unfolding bytes_of
read_request_body_lem_example =
    read_request_body_lem decode (some 3) (chunk (1 ∷ 2 ∷ []) ∷ no_value ∷ chunk (3 ∷ []) ∷ []) 3
      (tt, (tt, (tt, tt)))

-- An artifact, its text, and a codec that reads the two texts of a request.
abbrev texts_of : List String → Json
texts_of [] = arr nil
texts_of (s ∷ ss) = arr (cons (str s) nil)

abbrev artifact : Json
artifact = obj (
    field "proposalData"
      (obj (
        field "id" (str "1") (
          field "targets" (texts_of ("0x" ∷ [])) (
            field "values" (texts_of ("0" ∷ [])) (
              field "signatures" (texts_of ("" ∷ []))
                (field "calldatas" (texts_of ("0x" ∷ [])) (field "description" (str "") end)))))))
      (field "report"
        (obj (
          field "status" (str "success") (
            field "summary" (str "")
              (field "markdownReport" (str "") (field "structuredReport" (obj structured) end)))))
        end))
  where
    metadata : Fields
    metadata = field "schemaVersion" (num "1") (
        field "simulationType" (str "new") (
          field "proposalId" (str "1") (
            field "governorAddress" (str "0x408ED6354d4973f66138C91495F2f2FCbd8724C3") (
              field "chainId" (num "1") (
                field "simulationBlockNumber" (str "1") (
                  field "simulationTimestamp" (str "2") (
                    field "proposalCreatedAtBlockNumber" (str "unknown")
                      (field "proposalCreatedAtTimestamp" (str "unknown") end))))))))

    structured : Fields
    structured = field "status" (str "success") (
        field "summary" (str "") (
          field "checks" (arr nil) (
            field "events" (arr nil)
              (field "stateChanges" (arr nil) (field "metadata" (obj metadata) end)))))

abbrev codec : Codec
codec = record {
  parse = λ text.
      if text == "body"
      then some (obj (field "artifactRaw" (str "artifact") end))
      else if text == "artifact"
      then some artifact
      else none;
  stringify = λ value. "";
  issues = λ value. "";
}

abbrev natural : String → Option ℕ
natural text = if text == "1" then some 1 else none

abbrev artifact_refused : Json → Reply
artifact_refused value = record { status = 400; body = null; headers = [] }

artifact_valid_test : validate_publish_artifact natural artifact ≡ some artifact
unfolding validate_publish_artifact member count_items is_hex_address is_decimal
artifact_valid_test = refl

handle_publish-IsHandled_example :
    IsHandled codec natural
      (concat "sha256 of ")
      artifact_refused
      (some " key ")
      (run events new_relay)
      "body"
      (handle_publish codec natural
        (concat "sha256 of ")
        artifact_refused
        100
        (some " key ")
        (ok "body")
        (run events new_relay))
handle_publish-IsHandled_example =
    handle_publish-IsHandled codec natural (concat "sha256 of ") artifact_refused 100 (some " key ")
      "body" events
