-- ===== src/Relay/Vercel.antt =====
-- relay/vercel-runtime-publisher.ts: the publisher over Vercel's interface. The request for a deployment is a
-- parameter by the URL and the id that it answers with.
pub mod Laws
use Prim.Native.String.{[] as empty, ◌∷◌ as ◌‚◌}
use governance_seatbelt.Prelude.{
  ℕ, zero, suc, String, Option, none, some, Bool, true, false, ◌&&◌, ◌||◌, ◌+◌, ◌-◌, ◌*◌, ◌^◌, min,
  leb, not, if◌then◌else◌, ◌==◌, nat_eq, string_eq, or_else, from_option, Result, ok, throw, ◌>>=◌,
  missing_vercel_env, Exception,
}
use governance_seatbelt.Text.{concat, trim}
use governance_seatbelt.Json.{Json, Fields, str, obj}
use governance_seatbelt.Json.Read.{member, as_string}
use governance_seatbelt.Relay.Config.{Texts}
use governance_seatbelt.Relay.Env.{Env, read_non_empty_env, read_primary_or_alias_env}
use governance_seatbelt.Relay.Execution.{PublisherResult}

pub record VercelPublishEnv : Type 0 where
  pub token : String
  pub project_id : String
  pub org_id : String

pub record CreatedDeployment : Type 0 where
  pub id : String
  pub deployment_url : String

-- What a request for an alias may throw: an error of the interface, of the network, or another.
pub data AliasError : Type 0 where
  api : ℕ → Option String → AliasError
  type_error : AliasError
  other_error : AliasError

-- The answer to such a request, with its body if that is JSON.
pub record AliasResponse : Type 0 where
  pub status : ℕ
  pub is_ok : Bool
  pub body : Option Json

pub data AliasAnswer : Type 0 where
  aliased : String → AliasAnswer
  fails : AliasError → AliasAnswer

-- How the loop ends: with an address, with an error that is not retried, or out of time.
pub data Ended : Type 0 where
  alias_url : String → Ended
  threw : AliasError → Ended
  exhausted : Ended

-- What the machine gives: the clock, the request for an alias (an error if it fails), and the sleep.
pub record Machine (S : Type 0) : Type 0 where
  pub clock : S → ℕ
  pub post_alias : String → String → S → Option AliasResponse × S
  pub sleep : ℕ → S → S

abbrev given_text : Option String → Option String
given_text none = none
given_text (some s) = if s == "" then none else some s

abbrev text_of : String → Json → Option String
text_of key (obj fields) = given_text (as_string (member key fields))
text_of key _ = none

abbrev nested_error : Json → Option Json
nested_error (obj fields) = member "error" fields
nested_error _ = none

unfoldable pub read_alias_error_code : Option Json → Option String
read_alias_error_code none = none
read_alias_error_code (some value) = elim (text_of "error" value) [
  | some direct_code ↦ some direct_code
  | none ↦ elim (nested_error value) [ none ↦ none | some nested ↦ text_of "code" nested ]
]

abbrev is_not_ready : Option String → Bool
is_not_ready none = false
is_not_ready (some error_code) = error_code == "deployment_not_ready"

unfoldable pub is_retryable_alias_error : AliasError → Bool
is_retryable_alias_error (api status error_code) =
    is_not_ready error_code || status == 429 || (leb 500 status && leb status 599)
is_retryable_alias_error type_error = true
is_retryable_alias_error other_error = false

-- `value.endsWith('/')`
ends_with_slash : String → Bool
ends_with_slash empty = false
ends_with_slash (c ‚ empty) = (c ‚ "") == "/"
ends_with_slash (c ‚ (d ‚ s)) = ends_with_slash (d ‚ s)

pub append_path_to_url : String → String → String
unfolding ends_with_slash
append_path_to_url base_url relative_path =
    if ends_with_slash base_url
    then concat base_url relative_path
    else concat base_url (concat "/" relative_path)

abbrev given_env : Option String → Option String → Option String → Result VercelPublishEnv
given_env (some token) (some project_id) (some org_id) =
    ok (record { token = token; project_id = project_id; org_id = org_id })
given_env _ _ _ = throw missing_vercel_env

pub read_managed_vercel_env : Env → Result VercelPublishEnv
read_managed_vercel_env env =
    given_env (read_primary_or_alias_env env "SEATBELT_RELAY_VERCEL_TOKEN" "VERCEL_TOKEN")
      (read_primary_or_alias_env env "SEATBELT_RELAY_VERCEL_PROJECT_ID" "VERCEL_PROJECT_ID")
      (read_primary_or_alias_env env "SEATBELT_RELAY_VERCEL_ORG_ID" "VERCEL_ORG_ID")

abbrev default_alias_ready_timeout_ms : ℕ
default_alias_ready_timeout_ms = 120000

abbrev pub default_alias_retry_base_ms : ℕ
default_alias_retry_base_ms = 1000

abbrev pub default_alias_retry_max_ms : ℕ
default_alias_retry_max_ms = 5000

unfoldable pub alias_answer : String → Option AliasResponse → AliasAnswer
alias_answer hostname none = fails type_error
alias_answer hostname (some response) =
    if response.status == 409 || response.is_ok
    then aliased (concat "https://" hostname)
    else fails (api response.status (read_alias_error_code response.body))

abbrev pub retry_delay_ms : ℕ → ℕ → ℕ → ℕ → ℕ
retry_delay_ms retry_base_ms retry_max_ms retries remaining_ms =
    min (retry_base_ms * 2 ^ retries) (min retry_max_ms remaining_ms)

abbrev pub base_url : CreatedDeployment → Option Ended → Option String
base_url deployment none = none
base_url deployment (some (alias_url url)) = some url
base_url deployment (some _) = some deployment.deployment_url

abbrev pub published_at : CreatedDeployment → String → PublisherResult
published_at deployment artifact_base_url = record {
  deployment_url = deployment.deployment_url;
  artifact_url = append_path_to_url artifact_base_url "simulation-results.json";
  metadata_url = append_path_to_url artifact_base_url "publish-metadata.json";
}

-- `readPositiveIntegerEnv`
abbrev positive_env : Texts → Env → String → Option ℕ
positive_env texts env name = elim (read_non_empty_env env name) [
  | none ↦ none
  | some raw ↦ texts.floor_positive raw
]

pub deploy_timeout_of : Texts → Option ℕ → Env → ℕ
deploy_timeout_of texts deploy_timeout_ms env =
    from_option default_alias_ready_timeout_ms
      (or_else deploy_timeout_ms (positive_env texts env "SEATBELT_RELAY_DEPLOY_TIMEOUT_MS"))

module _ {S : Type 0} (machine : Machine S) where
  unfoldable pub create_publish_alias : String → String → S → AliasAnswer × S
  create_publish_alias deployment_id hostname s =
      let (response, s') = machine.post_alias deployment_id hostname s in
      (alias_answer hostname response, s')

  -- The loop, by fuel; `none` when that runs out. A time that is left is the difference to the deadline,
  -- which is not positive exactly if it is 0 here.
  module _ (deployment_id hostname : String) (deadline_ms retry_base_ms retry_max_ms : ℕ) where
    unfoldable pub retry_from : ℕ → ℕ → S → Option Ended × S
    retry_from zero retries s = (none, s)
    retry_from (suc fuel) retries s =
        let (answer, s') = create_publish_alias deployment_id hostname s in
        let remaining_ms = deadline_ms - machine.clock s' in
        let rest =
          retry_from fuel (suc retries)
            (machine.sleep (retry_delay_ms retry_base_ms retry_max_ms retries remaining_ms) s') in
        elim answer [
          | aliased url ↦ (some (alias_url url), s')
          | fails error ↦
              if not (is_retryable_alias_error error)
              then (some (threw error), s')
              else if remaining_ms == 0
              then (some exhausted, s')
              else rest
        ]

  -- As many rounds as there are milliseconds, and one.
  unfoldable pub create_publish_alias_with_retry :
      String → String → ℕ → ℕ → ℕ → S → Option Ended × S
  unfolding retry_from
  create_publish_alias_with_retry deployment_id hostname deploy_timeout_ms retry_base_ms
        retry_max_ms s =
      retry_from deployment_id hostname (machine.clock s + deploy_timeout_ms) retry_base_ms
        retry_max_ms (suc deploy_timeout_ms) 0 s

  -- From the created deployment on; `none` if the loop did not end. An alias that fails for whatever reason
  -- leaves the deployment's own address.
  pub publish_deployment : CreatedDeployment → String → ℕ → ℕ → ℕ → S → Option PublisherResult × S
  publish_deployment deployment hostname deploy_timeout_ms retry_base_ms retry_max_ms s =
      let (ended, s') =
        create_publish_alias_with_retry deployment.id hostname deploy_timeout_ms retry_base_ms
          retry_max_ms s in
      elim (base_url deployment ended) [
        | none ↦ (none, s')
        | some url ↦ (some (published_at deployment url), s')
      ]

-- The host of a publication.
pub to_publish_alias_hostname : Texts → String → String
to_publish_alias_hostname texts publish_id =
    concat "a-" (concat (texts.to_lower_case (trim publish_id)) ".publish.scopelift.co")
