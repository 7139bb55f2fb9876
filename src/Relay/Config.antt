-- ===== src/Relay/Config.antt =====
-- relay/server.ts: the settings of the relay.
use governance_seatbelt.Prelude.{
  ℕ, String, Option, none, some, Bool, true, false, ◌||◌, if◌then◌else◌, ◌==◌, string_eq,
  from_option, Result, ok, throw, ◌>>=◌, invalid_setting,
}
use governance_seatbelt.Text.{trim}
use governance_seatbelt.Relay.Env.{Env, read_non_empty_env}

pub record RelayConfig : Type 0 where
  pub relay_version : String
  pub max_body_bytes : ℕ
  pub rate_limit_enabled : Bool
  pub rate_limit_window_ms : ℕ
  pub rate_limit_max_requests : ℕ
  pub deploy_timeout_ms : ℕ
  pub port : ℕ

abbrev pub default_deploy_timeout_ms : ℕ
default_deploy_timeout_ms = 180000

-- JavaScript's reading of texts: `Math.floor(Number(text))`, if the number is finite and positive,
-- and `toLowerCase`.
pub record Texts : Type 0 where
  pub floor_positive : String → Option ℕ
  pub to_lower_case : String → String

module _ (texts : Texts) where
  unfoldable pub read_boolean_flag : Option String → Bool → Bool
  read_boolean_flag none default_value = default_value
  read_boolean_flag (some value) default_value =
      let normalized = texts.to_lower_case (trim value) in
      if value == ""
      then default_value
      else if normalized == "1" || normalized == "true" || normalized == "yes" || normalized == "on"
      then true
      else if normalized == "0"
          || normalized == "false"
          || normalized == "no"
          || normalized == "off"
      then false
      else default_value

  unfoldable pub read_positive_integer : Env → String → ℕ → Result ℕ
  read_positive_integer env name fallback = elim (read_non_empty_env env name) [
    | none ↦ ok fallback
    | some value ↦ elim (texts.floor_positive value) [
      | none ↦ throw (invalid_setting name value)
      | some parsed ↦ ok parsed
    ]
  ]

  unfoldable pub create_relay_config : Env → Result RelayConfig
  unfolding read_boolean_flag read_positive_integer
  create_relay_config env = do
    max_body_bytes ← read_positive_integer env "SEATBELT_RELAY_MAX_BODY_BYTES" 5242880
    rate_limit_window_ms ← read_positive_integer env "SEATBELT_RELAY_RATE_LIMIT_WINDOW_MS" 60000
    rate_limit_max_requests ← read_positive_integer env "SEATBELT_RELAY_RATE_LIMIT_MAX_REQUESTS" 30
    deploy_timeout_ms ←
        read_positive_integer env "SEATBELT_RELAY_DEPLOY_TIMEOUT_MS" default_deploy_timeout_ms
    port ← read_positive_integer env "PORT" 8787
    ok (record {
      relay_version = from_option "phase1c-mvp" (read_non_empty_env env "SEATBELT_RELAY_VERSION");
      max_body_bytes = max_body_bytes;
      rate_limit_enabled =
          read_boolean_flag (read_non_empty_env env "SEATBELT_RELAY_RATE_LIMIT_ENABLED") true;
      rate_limit_window_ms = rate_limit_window_ms;
      rate_limit_max_requests = rate_limit_max_requests;
      deploy_timeout_ms = deploy_timeout_ms;
      port = port;
    })
