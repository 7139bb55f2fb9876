-- ===== src/Checks.antt =====
-- types.d.ts: what a check reports.
use governance_seatbelt.Prelude.{String, Option, List}
use governance_seatbelt.Dict.{Dict}
use governance_seatbelt.Json.{Json}

pub record CheckResult : Type 0 where
  pub info : List String
  pub warnings : List String
  pub errors : List String
  pub payload : Option Json
  -- `skipped?: { reason }`
  pub skipped : Option String
  pub permissions_diff : Option (List Json)
  pub storage_changes : Option (List Json)

pub record NamedResult : Type 0 where
  pub name : String
  pub result : CheckResult

-- By check id.
abbrev pub AllCheckResults : Type 0
AllCheckResults = Dict String NamedResult
