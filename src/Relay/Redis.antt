-- ===== src/Relay/Redis.antt =====
-- relay/redis.ts: commands to the relay's Redis database over HTTP.
use governance_seatbelt.Prelude.{
  String, Option, none, some, List, Bool, if◌then◌else◌, not, string_eq, Result, ok, throw,
  storage_failed,
}
use governance_seatbelt.Json.{Json, null, obj}
use governance_seatbelt.Json.Read.{member, truthy}

-- The answer to a request: `response.ok`, and its body if that is JSON.
pub record Answer : Type 0 where
  pub is_ok : Bool
  pub body : Option Json

-- `fetch` of the database's address with a command, within its time; `none` if it fails.
pub record Database (S : Type 0) : Type 0 where
  pub post : List String → S → Option Answer × S

-- `Reflect.get(body, 'result')`; a missing member is undefined, here null.
abbrev or_null : Option Json → Json
or_null none = null
or_null (some value) = value

unfoldable pub result_of : Option Answer → Result Json
unfolding member truthy
result_of none = throw storage_failed
result_of (some answer) = elim answer.body [
  | some (obj fields) ↦
      if truthy (member "error" fields)
      then throw storage_failed
      else if not answer.is_ok
      then throw storage_failed
      else ok (or_null (member "result" fields))
  | _ ↦ throw storage_failed
]

unfoldable pub run_upstash_command : {S : Type 0} → Database S → List String → S → Result Json × S
unfolding result_of
run_upstash_command database command s =
    let (answer, s') = database.post command s in (result_of answer, s')
