-- ===== src/Relay/Env.antt =====
-- utils/env.ts: variables of the environment.
use governance_seatbelt.Prelude.{
  String, Option, none, some, if◌then◌else◌, ◌==◌, string_eq, or_else,
}
use governance_seatbelt.Dict.{Dict, lookup}
use governance_seatbelt.Text.{trim}

-- `Record<string, string | undefined>`; a variable that is undefined has no entry.
abbrev pub Env : Type 0
Env = Dict String String

-- `trimmed.length > 0 ? trimmed : undefined`
unfoldable pub non_empty : String → Option String
non_empty text = if text == "" then none else some text

unfoldable pub read_non_empty_env : Env → String → Option String
unfolding non_empty
read_non_empty_env env name = elim (lookup name env) [
  | none ↦ none
  | some value ↦ non_empty (trim value)
]

unfoldable pub read_primary_or_alias_env : Env → String → String → Option String
unfolding read_non_empty_env
read_primary_or_alias_env env primary_name alias_name =
    or_else (read_non_empty_env env primary_name) (read_non_empty_env env alias_name)
