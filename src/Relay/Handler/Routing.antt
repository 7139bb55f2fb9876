-- ===== src/Relay/Handler/Routing.antt =====
-- relay/server.ts: the first part of the handler, up to its first await.
use Prim.Native.String.{[] as empty, ◌∷◌ as ◌‚◌}
use governance_seatbelt.Prelude.{
  ℕ, String, Option, none, some, [], ◌∷◌, Bool, true, false, ◌&&◌, ◌||◌, if◌then◌else◌, ◌==◌,
  string_eq, Result, ok, throw, from_option, length,
}
use governance_seatbelt.Dict.{Dict, lookup}
use governance_seatbelt.Text.{to_decimal, trim}
use governance_seatbelt.Json.{Json, bool, num, str, obj, end, field}
use governance_seatbelt.Relay.Config.{RelayConfig, Texts}
use governance_seatbelt.Relay.RateLimit.{Buckets, Allowance, allowed, refused, admit}
use governance_seatbelt.Relay.Lookup.{PublishLookupRecord, normalize_publish_id}
use governance_seatbelt.Relay.Idempotency.{Relay}
use governance_seatbelt.Relay.Handler.{Reply, error_body, error_reply}

-- A request: its method, the path of its address, and its headers by their names in lower case.
pub record Request : Type 0 where
  pub method : String
  pub pathname : String
  pub headers : Dict String String

-- What the handler keeps between requests.
pub record Server : Type 0 where
  pub rate_limit_buckets : Buckets
  pub relay : Relay

pub data Action : Type 0 where
  -- the simulation gateway
  to_gateway : Action
  respond : Reply → Action
  -- the publication of an id, to be read from the store
  look_up : String → Action
  -- the body of a publish request
  read_body : Action

-- A path without the slash at its end.
drop_slash : String → String
drop_slash empty = ""
drop_slash (c ‚ empty) = if (c ‚ "") == "/" then "" else c ‚ ""
drop_slash (c ‚ (d ‚ s)) = c ‚ drop_slash (d ‚ s)

pub normalize_path : String → String
unfolding drop_slash
normalize_path empty = ""
normalize_path (c ‚ empty) = c ‚ ""
normalize_path (c ‚ (d ‚ s)) = c ‚ drop_slash (d ‚ s)

-- `forwarded.split(',')[0]`
before_comma : String → String
before_comma empty = ""
before_comma (c ‚ s) = let rest = before_comma s in if (c ‚ "") == "," then "" else c ‚ rest

has_slash : String → Bool
has_slash empty = false
has_slash (c ‚ s) = (c ‚ "") == "/" || has_slash s

-- The rest of a text that starts with a prefix.
after_prefix : String → String → Option String
after_prefix empty s = some s
after_prefix (c ‚ p) empty = none
after_prefix (c ‚ p) (d ‚ s) =
    let rest = after_prefix p s in if (c ‚ "") == (d ‚ "") then rest else none

abbrev given : String → Option String
given s = if s == "" then none else some s

abbrev trimmed_header : Option String → Option String
trimmed_header none = none
trimmed_header (some value) = given (trim value)

abbrev first_forwarded : Option String → Option String
first_forwarded none = none
first_forwarded (some forwarded) = given (trim (before_comma forwarded))

pub extract_client_address : Dict String String → String
unfolding before_comma
extract_client_address headers = elim (first_forwarded (lookup "x-forwarded-for" headers)) [
  | some first_entry ↦ first_entry
  | none ↦ from_option "unknown" (trimmed_header (lookup "x-real-ip" headers))
]

abbrev pub is_gateway_path : String → Bool
is_gateway_path pathname =
    pathname == "/api/v1/access" || pathname == "/api/v1/rpc" || pathname == "/api/v1/explorer"

abbrev number : ℕ → Json
number n = num (to_decimal n)

pub build_health_response : RelayConfig → Relay → String → Json
build_health_response config relay publish_lookup_mode = obj (
    field "ok" (bool true) (
      field "service" (str "seatbelt-managed-publish-relay") (
        field "relayVersion" (str config.relay_version) (
          field "rateLimitEnabled" (bool config.rate_limit_enabled) (
            field "maxBodyBytes" (number config.max_body_bytes) (
              field "idempotency"
                (obj (
                  field "completedKeys" (number (length relay.completed))
                    (field "inFlightKeys" (number (length relay.in_flight)) end)))
                (field "publishLookupMode" (str publish_lookup_mode) end)))))))

abbrev pub rate_limited_reply : ℕ → Reply
rate_limited_reply seconds = record {
  status = 429;
  body =
      error_body "rate_limited" "Too many publish requests from this client. Please retry later."
        (field "retryAfterSeconds" (number seconds) end);
  headers = ("retry-after", to_decimal seconds) ∷ [];
}

abbrev pub not_found_reply : Reply
not_found_reply = error_reply 404 "not_found" "Endpoint not found."

abbrev invalid_publish_id_reply : Reply
invalid_publish_id_reply = error_reply 400 "invalid_publish_id" "publishId must be a valid UUID."

-- After the store is read.
pub lookup_reply : String → Result (Option PublishLookupRecord) → Reply
lookup_reply publish_id (throw e) =
    error_reply 502 "publish_lookup_failed" "Failed to resolve publish by id."
lookup_reply publish_id (ok none) = record {
  status = 404;
  body =
      error_body "publish_not_found" "Publish was not found."
        (field "publishId" (str publish_id) end);
  headers = [];
}
lookup_reply publish_id (ok (some r)) = record {
  status = 200;
  body = obj (
      field "publishId" (str r.publish_id) (
        field "artifactUrl" (str r.artifact_url) (
          field "deploymentUrl" (str r.deployment_url) (
            field "metadataUrl" (str r.metadata_url) (
              field "artifactHash" (str r.artifact_hash)
                (field "publishedAt" (str r.published_at) end))))));
  headers = [];
}

-- With `decodeURIComponent`, which throws on a malformed text.
module _ (texts : Texts) (decode_uri_component : String → Option String) where
  pub lookup_action : String → Action
  unfolding has_slash
  lookup_action encoded = elim (decode_uri_component encoded) [
    | none ↦ respond invalid_publish_id_reply
    | some raw_publish_id ↦
        if raw_publish_id == "" || has_slash raw_publish_id
        then respond not_found_reply
        else elim (normalize_publish_id texts raw_publish_id) [
          | none ↦ respond invalid_publish_id_reply
          | some publish_id ↦ look_up publish_id
        ]
  ]

  -- Every route but those to the gateway, the health and the limited one.
  pub other_action : String → String → Action
  unfolding after_prefix lookup_action
  other_action method pathname = elim (after_prefix "/api/v1/publishes/" pathname) [
    | none ↦ respond not_found_reply
    | some encoded ↦ if method == "GET" then lookup_action encoded else respond not_found_reply
  ]

  abbrev publish_action : Allowance → Action
  publish_action allowed = read_body
  publish_action (refused seconds) = respond (rate_limited_reply seconds)

  pub arrive : RelayConfig → String → Request → ℕ → Server → Action × Server
  unfolding build_health_response other_action extract_client_address
  arrive config publish_lookup_mode request now_ms server =
      let pathname = normalize_path request.pathname in
      let key = extract_client_address request.headers in
      let (allowance, buckets) = admit config key now_ms server.rate_limit_buckets in
      if is_gateway_path pathname
      then (to_gateway, server)
      else if request.method == "GET" && pathname == "/api/v1/health"
      then (
        respond (record {
          status = 200;
          body = build_health_response config server.relay publish_lookup_mode;
          headers = [];
        }),
        server,
      )
      else if request.method == "POST" && pathname == "/api/v1/publishes"
      then (publish_action allowance, record server { rate_limit_buckets = buckets })
      else (other_action request.method pathname, server)
