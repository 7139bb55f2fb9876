-- ===== src/Relay/Gateway.antt =====
-- relay/simulation-gateway.ts: the gateway to RPC nodes and explorers for holders of an access code.
pub mod Planning
pub mod Laws
use Prim.Native.Char.{Char, code}
use Prim.Native.String.{[] as empty, ◌∷◌ as ◌‚◌}
use governance_seatbelt.Prelude.{
  ℕ, zero, suc, String, Option, none, some, List, [], ◌∷◌, Bool, true, false, ◌&&◌, ◌||◌, not, leb,
  ltb, if◌then◌else◌, ◌==◌, string_eq, nat_eq, Result, ok, throw, from_option, or_else,
}
use governance_seatbelt.Dict.{Dict, lookup}
use governance_seatbelt.Json.{Json, Items, Fields, null, str, arr, obj, end, field}
use governance_seatbelt.Json.Read.{member, truthy}
use governance_seatbelt.Relay.Env.{Env}
use governance_seatbelt.Relay.Quota.{Limit, limits_of}
use governance_seatbelt.Relay.Gateway.Planning.{
  Plan, Planned, plan_of, refuse, planned, Upstream, present, configured_rpc, Numbers,
}

-- What the gateway answers; a refusal with its status, message and seconds to wait.
pub data Response : Type 0 where
  reply : ℕ → String → Option ℕ → Response
  access_granted : Response
  -- the code of a provider's error, and nothing else of it
  rpc_error : Json → Response
  forwarded : Json → Response

-- How the request comes: its body is read from it when it is needed.
pub record Request : Type 0 where
  pub method : String
  pub authorization : Option String
  pub route : String
  -- `none` for a body that cannot be read or is no JSON; the flag is set for one that is too large
  pub payload : Bool × Option Json

-- A provider's answer, with its body as JSON, if it is JSON and not too large.
pub record Provided : Type 0 where
  pub status : ℕ
  pub is_ok : Bool
  pub data_ : Option Json

-- The rest of the world: the script of the quotas, run by Redis, and `fetch`, which may fail.
pub record World (S : Type 0) : Type 0 where
  pub run_quota_script : List Limit → S → Result ℕ × S
  pub fetch : Upstream → S → Option Provided × S

-- Of node's crypto and zlib: the hash of a text in hexadecimal, and the size of a value's text when it is
-- compressed.
pub record Machine : Type 0 where
  pub sha256 : String → String
  pub gzip_size : Json → ℕ
  -- `Number(value) || -32603`
  pub error_code : Option Json → Json

abbrev between : ℕ → ℕ → Char → Bool
between low high c = leb low (code c) && leb (code c) high

unfoldable pub lower_hex : ℕ → String → Bool
lower_hex zero empty = true
lower_hex zero (c ‚ s) = false
lower_hex (suc n) empty = false
lower_hex (suc n) (c ‚ s) = (between 97 102 c || between 48 57 c) && lower_hex n s

unfoldable pub printable : String → Bool
printable empty = true
printable (c ‚ s) = between 0x21 0x7E c && printable s

unfoldable pub size : String → ℕ
size empty = 0
size (c ‚ s) = suc (size s)

unfoldable pub after_prefix : String → String → Option String
after_prefix empty s = some s
after_prefix (c ‚ p) empty = none
after_prefix (c ‚ p) (d ‚ s) =
    let rest = after_prefix p s in if (c ‚ "") == (d ‚ "") then rest else none

-- `/^Bearer ([\x21-\x7e]{24,256})$/`
unfoldable pub access_code : Option String → Option String
unfolding after_prefix printable size
access_code none = none
access_code (some authorization) = elim (after_prefix "Bearer " authorization) [
  | none ↦ none
  | some c ↦ if printable c && leb 24 (size c) && leb (size c) 256 then some c else none
]

-- `/^[a-f0-9]{64}$/`
unfoldable pub is_code_hash : String → Bool
unfolding lower_hex
is_code_hash hash = lower_hex 64 hash

module _ (machine : Machine) (numbers : Numbers) (env : Env) where
  -- The guards before the route: a refusal, or none.
  unfoldable pub authorize : Request → Option Response
  unfolding access_code is_code_hash
  authorize request =
      if not (request.method == "POST")
      then some (reply 405 "Use POST" none)
      else elim (present env "SEATBELT_ACCESS_CODE_SHA256") [
        | none ↦ some (reply 503 "Managed access is not configured" none)
        | some hash ↦
            if not (is_code_hash hash)
            then some (reply 503 "Managed access is not configured" none)
            else elim (access_code request.authorization) [
              | none ↦ some (reply 401 "Access code required" none)
              | some c ↦
                  if machine.sha256 c == hash
                  then none
                  else some (reply 401 "Access code required" none)
            ]
      ]

  unfoldable pub is_there : Option String → Bool
  is_there none = false
  is_there (some s) = true

  pub access_response : Response
  unfolding is_there
  access_response =
      if is_there (present env "UPSTASH_REDIS_REST_URL")
        && is_there (present env "UPSTASH_REDIS_REST_TOKEN")
        && not (configured_rpc env 1 == "")
        && is_there (present env "ETHERSCAN_API_KEY")
      then access_granted
      else reply 503 "Managed access is not configured" none

  -- `Number(env.SEATBELT_REQUESTS_PER_DAY || 100_000)`, where it is a safe integer and not below 1
  unfoldable pub daily_limit : Option ℕ
  daily_limit = elim (present env "SEATBELT_REQUESTS_PER_DAY") [
    | none ↦ some 100000
    | some text ↦ numbers.safe_integer text
  ]

  abbrev is_storage_given : Bool
  is_storage_given =
      is_there (present env "UPSTASH_REDIS_REST_URL")
      && is_there (present env "UPSTASH_REDIS_REST_TOKEN")

  -- Before the quotas are run: their limits, unless something is not configured.
  unfoldable pub quota_limits : Plan → Option (List Limit)
  unfolding daily_limit is_there
  quota_limits plan = elim daily_limit [
    | none ↦ none
    | some daily ↦
        if is_storage_given && leb 1 daily
        then some (limits_of daily plan.chain plan.trace (not plan.is_rpc))
        else none
  ]

  -- A member of the provider's value; null has none, and reading one throws.
  abbrev data_fields : Json → Option Fields
  data_fields null = none
  data_fields (obj fields) = some fields
  data_fields _ = some end

  abbrev is_text : String → Option Json → Bool
  is_text text (some (str s)) = s == text
  is_text text _ = false

  abbrev provider_failed : Response
  provider_failed = reply 502 "Provider request failed" none

  forward_within : Json → Response
  forward_within value =
      if ltb 4194304 (machine.gzip_size value)
      then reply 502 "Provider response exceeds relay limit" none
      else forwarded value

  abbrev error_code_of : Option Json → Json
  error_code_of (some (obj fields)) = machine.error_code (member "code" fields)
  error_code_of _ = machine.error_code none

  pub forward_fields : Bool → Json → Fields → Response
  unfolding forward_within
  forward_fields is_rpc value fields =
      if is_rpc && truthy (member "error" fields)
      then rpc_error (error_code_of (member "error" fields))
      else if not is_rpc
          && is_text "0" (member "status" fields)
          && not (is_text "Contract source code not verified" (member "result" fields))
      then reply 502 "Explorer lookup unavailable" none
      else forward_within value

  abbrev unavailable : ℕ → Response
  unavailable status =
      if status == 429
      then reply 429 "Provider request unavailable" (some 1)
      else reply 502 "Provider request unavailable" none

  pub forward : Bool → Option Provided → Response
  unfolding forward_fields
  forward is_rpc none = provider_failed
  forward is_rpc (some provided) = elim provided.data_ [
    | none ↦ if not provided.is_ok then unavailable provided.status else provider_failed
    | some value ↦
        if not provided.is_ok then unavailable provided.status else elim (data_fields value) [
          | none ↦ provider_failed
          | some fields ↦ forward_fields is_rpc value fields
        ]
  ]

  module _ {S : Type 0} (world : World S) where
    -- A plan is carried out only when the quotas allow it.
    abbrev pub carry_out : Plan → Result ℕ → S → Response × S
    carry_out plan (throw e) s = (reply 503 "Shared usage limits unavailable" none, s)
    carry_out plan (ok (suc seconds)) s =
        (reply 429 "Seatbelt usage limit reached" (some (suc seconds)), s)
    carry_out plan (ok zero) s =
        let (provided, s') = world.fetch plan.upstream s in (forward plan.is_rpc provided, s')

    unfoldable pub run_plan : Plan → S → Response × S
    unfolding quota_limits forward
    run_plan plan s = elim (quota_limits plan) [
      | none ↦ (reply 503 "Shared usage limits unavailable" none, s)
      | some limits ↦ let (answer, s') = world.run_quota_script limits s in carry_out plan answer s'
    ]

    abbrev pub run_planned : Planned → S → Response × S
    run_planned (refuse status message) s = (reply status message none, s)
    run_planned (planned plan) s = run_plan plan s

    abbrev pub run_payload : String → Bool × Option Json → S → Response × S
    run_payload route (too_large, none) s =
        (reply (if too_large then 413 else 400) "Invalid or oversized request" none, s)
    run_payload route (too_large, some payload) s =
        run_planned (plan_of numbers env (route == "/api/v1/rpc") payload) s

    unfoldable pub gateway : Request → S → Response × S
    unfolding authorize access_response run_plan
    gateway request s = elim (authorize request) [
      | some refusal ↦ (refusal, s)
      | none ↦
          if request.route == "/api/v1/access"
          then (access_response, s)
          else run_payload request.route request.payload s
    ]
