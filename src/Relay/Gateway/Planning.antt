-- ===== src/Relay/Gateway/Planning.antt =====
-- relay/simulation-gateway.ts, with utils/chains/rpc-endpoints.ts: which requests the gateway takes, and
-- what it asks of a provider for them.
pub mod Laws
use Prim.Native.Char.{Char, code}
use Prim.Native.String.{[] as empty, ◌∷◌ as ◌‚◌}
use governance_seatbelt.Prelude.{
  ℕ, zero, suc, String, Option, none, some, List, [], ◌∷◌, Bool, true, false, ◌&&◌, ◌||◌, not, leb,
  ltb, ◌+◌, ◌*◌, ◌-◌, if◌then◌else◌, ◌==◌, string_eq, nat_eq, from_option, is_some,
}
use governance_seatbelt.Dict.{Dict, lookup}
use governance_seatbelt.Dedupe.{has}
use governance_seatbelt.Text.{concat, to_decimal, trim}
use governance_seatbelt.Json.{
  Json, Items, Fields, null, bool, num, str, arr, obj, nil, cons, end, field,
}
use governance_seatbelt.Json.Read.{
  member, as_string, as_items, as_fields, count_items, only_members, pick, item_at, set_item,
  set_member,
}
use governance_seatbelt.Publish.Artifact.{is_hex_address, as_natural}
use governance_seatbelt.Relay.Env.{Env}

abbrev pub rpc_env_by_chain : Dict ℕ String
rpc_env_by_chain =
    (1, "QUICKNODE_RPC_URL")
    ∷ (42161, "ARBITRUM_RPC_URL")
    ∷ (4663, "ROBINHOOD_RPC_URL")
    ∷ (10, "OPTIMISM_RPC_URL")
    ∷ (8453, "BASE_RPC_URL")
    ∷ (130, "UNICHAIN_RPC_URL")
    ∷ (57073, "INK_RPC_URL")
    ∷ (1868, "SONEIUM_RPC_URL")
    ∷ (60808, "BOB_RPC_URL")
    ∷ (56, "BSC_RPC_URL")
    ∷ (42220, "CELO_RPC_URL")
    ∷ (137, "POLYGON_RPC_URL")
    ∷ (43114, "AVALANCHE_RPC_URL")
    ∷ (143, "MONAD_RPC_URL")
    ∷ (4217, "TEMPO_RPC_URL")
    ∷ (4326, "MEGAETH_RPC_URL")
    ∷ (480, "WORLDCHAIN_RPC_URL")
    ∷ (7777777, "ZORA_RPC_URL")
    ∷ (196, "XLAYER_RPC_URL")
    ∷ (5042, "ARC_RPC_URL")
    ∷ []

-- A variable that is set and not empty, as it is.
unfoldable pub present : Env → String → Option String
present env name = elim (lookup name env) [
  | none ↦ none
  | some value ↦ if value == "" then none else some value
]

unfoldable pub configured_rpc : Env → ℕ → String
configured_rpc env chain_id = elim (lookup chain_id rpc_env_by_chain) [
  | none ↦ ""
  | some name ↦
      from_option "" (elim (lookup name env) [ none ↦ none | some value ↦ some (trim value) ])
]

abbrev pub methods : List String
methods =
    "eth_chainId" ∷ "eth_blockNumber" ∷ "eth_getBlockByNumber" ∷ "eth_getBlockByHash"
    ∷ "eth_getTransactionByHash" ∷ "eth_getTransactionReceipt" ∷ "eth_getTransactionCount"
    ∷ "eth_getBalance" ∷ "eth_getCode" ∷ "eth_getStorageAt" ∷ "eth_getLogs" ∷ "eth_call"
    ∷ "debug_traceCall" ∷ "debug_traceTransaction" ∷ []

-- The numbers of JavaScript: the natural number that a JSON number is, if it is one, and `Number` of a text,
-- if it is a safe integer and not negative.
pub record Numbers : Type 0 where
  pub natural : String → Option ℕ
  pub safe_integer : String → Option ℕ

-- What is asked, and of whom: a node at its address with a method and parameters, or an explorer.
pub data Upstream : Type 0 where
  rpc : String → String → Items → Upstream
  blockscout : String → String → Upstream
  etherscan : ℕ → String → String → String → Upstream

pub record Plan : Type 0 where
  pub chain : ℕ
  pub trace : Bool
  pub is_rpc : Bool
  pub upstream : Upstream

pub data Planned : Type 0 where
  refuse : ℕ → String → Planned
  planned : Plan → Planned

-- The value of a hexadecimal digit.
abbrev hex_value : Char → Option ℕ
hex_value c =
    if leb 48 (code c) && leb (code c) 57
    then some (code c - 48)
    else if leb 97 (code c) && leb (code c) 102
    then some (code c - 87)
    else if leb 65 (code c) && leb (code c) 70
    then some (code c - 55)
    else none

unfoldable pub hex_number : ℕ → String → Option ℕ
hex_number n empty = some n
hex_number n (c ‚ s) = elim (hex_value c) [ none ↦ none | some d ↦ hex_number (n * 16 + d) s ]

-- `BigInt(text)` of a text like `/^0x[0-9a-fA-F]+$/`
unfoldable pub big_hex : String → Option ℕ
unfolding hex_number
big_hex (a ‚ (b ‚ (c ‚ s))) = if code a == 48 && code b == 120 then hex_number 0 (c ‚ s) else none
big_hex _ = none

abbrev may_be : (Json → Bool) → String → Fields → Bool
may_be p key fields = elim (member key fields) [ none ↦ true | some value ↦ p value ]

abbrev is_bool : Json → Bool
is_bool (bool b) = true
is_bool _ = false

abbrev is_object : Json → Bool
is_object (obj fields) = true
is_object _ = false

is_tracer : Option String → Bool
is_tracer none = false
is_tracer (some tracer) = tracer == "callTracer" || tracer == "prestateTracer"

is_tracer_config : Json → Bool
is_tracer_config (obj fields) =
    only_members ("withLog" ∷ "diffMode" ∷ []) fields
    && may_be is_bool "withLog" fields
    && may_be is_bool "diffMode" fields
is_tracer_config _ = false

abbrev pub trace_members : List String
trace_members = "tracer" ∷ "tracerConfig" ∷ "stateOverrides" ∷ "blockOverrides" ∷ []

pub are_trace_options : Fields → Bool
unfolding is_tracer is_tracer_config
are_trace_options fields =
    only_members trace_members fields
    && is_tracer (as_string (member "tracer" fields))
    && may_be is_tracer_config "tracerConfig" fields
    && may_be is_object "stateOverrides" fields
    && may_be is_object "blockOverrides" fields

abbrev pub trace_timeout : Json
trace_timeout = str "20s"

abbrev pub max_gas : ℕ
max_gas = 30000000

-- The parameters with what a trace is limited by, and with a limit of gas; `none` where they are refused.
pub limit_trace : ℕ → Items → Option Items
unfolding are_trace_options
limit_trace index params = elim (as_fields (item_at index params)) [
  | none ↦ none
  | some fields ↦
      if are_trace_options fields
      then some (
          set_item index (obj (set_member "timeout" trace_timeout (pick trace_members fields)))
            params)
      else none
]

-- The gas of a call: the default, the given one if it is not too much, or none.
unfoldable pub allowed_gas : Option Json → Option String
unfolding big_hex
allowed_gas none = some "0x1c9c380"
allowed_gas (some (str gas)) = elim (big_hex gas) [
  | none ↦ none
  | some n ↦ if ltb max_gas n then none else some gas
]
allowed_gas (some _) = none

unfoldable pub limit_gas : Items → Option Items
unfolding allowed_gas
limit_gas params = elim (as_fields (item_at 0 params)) [
  | none ↦ none
  | some fields ↦ elim (allowed_gas (member "gas" fields)) [
    | none ↦ none
    | some gas ↦ some (set_item 0 (obj (set_member "gas" (str gas) fields)) params)
  ]
]

-- `params: z.array(z.unknown()).max(4)`
abbrev short_items : Option Items → Option Items
short_items none = none
short_items (some items) = if leb (count_items items) 4 then some items else none

-- A method of the list.
abbrev known_method : Option String → Option String
known_method none = none
known_method (some name) = if has name methods then some name else none

abbrev pub is_trace : String → Bool
is_trace name = name == "debug_traceCall" || name == "debug_traceTransaction"

abbrev pub is_call : String → Bool
is_call name = name == "debug_traceCall" || name == "eth_call"

abbrev pub trace_index : String → ℕ
trace_index name = if name == "debug_traceCall" then 2 else 1

module _ (numbers : Numbers) (env : Env) where
  -- `chainId`
  abbrev known_chain : Option Json → Option ℕ
  known_chain value = elim (as_natural numbers.natural value) [
    | none ↦ none
    | some id ↦ if is_some (lookup id rpc_env_by_chain) then some id else none
  ]

  abbrev rpc_plan : ℕ → String → String → Items → Planned
  rpc_plan chain url name params = planned (record {
    chain = chain;
    trace = is_trace name;
    is_rpc = true;
    upstream = rpc url name params;
  })

  abbrev pub limit_call : ℕ → String → String → Items → Planned
  limit_call chain url name params =
      if not (is_call name) then rpc_plan chain url name params else elim (limit_gas params) [
        | none ↦ refuse 400 "Call exceeds simulation gas limit"
        | some limited ↦ rpc_plan chain url name limited
      ]

  unfoldable pub plan_rpc : ℕ → String → Items → Planned
  unfolding limit_trace limit_gas
  plan_rpc chain name params =
      let url = configured_rpc env chain in
      if url == ""
      then refuse 503 (concat "Chain " (concat (to_decimal chain) " is not configured"))
      else if not (is_trace name)
      then limit_call chain url name params
      else elim (limit_trace (trace_index name) params) [
        | none ↦ refuse 400 "Unsupported trace options"
        | some limited ↦ limit_call chain url name limited
      ]

  abbrev pub parse_rpc : Fields → Option ℕ → Option String → Option Items → Planned
  parse_rpc fields (some chain) (some name) (some params) =
      if only_members ("chainId" ∷ "method" ∷ "params" ∷ []) fields
      then plan_rpc chain name params
      else refuse 400 "Unsupported RPC request"
  parse_rpc fields _ _ _ = refuse 400 "Unsupported RPC request"

  abbrev address_of : Option String → Option String
  address_of none = none
  address_of (some address) = if is_hex_address address then some address else none

  abbrev action_of : Option String → Option String
  action_of none = none
  action_of (some action) =
      if action == "getabi" || action == "getsourcecode" || action == "blockscout"
      then some action
      else none

  abbrev explorer_plan : ℕ → Upstream → Planned
  explorer_plan chain upstream =
      planned (record { chain = chain; trace = false; is_rpc = false; upstream = upstream })

  pub plan_explorer : ℕ → String → String → Planned
  unfolding present
  plan_explorer chain address action =
      if action == "blockscout"
      then (elim (present env "BLOCKSCOUT_API_KEY") [
        | none ↦ refuse 503 "Explorer unavailable"
        | some key ↦
            if chain == 5042
            then explorer_plan chain (blockscout address key)
            else refuse 503 "Explorer unavailable"
      ])
      else elim (present env "ETHERSCAN_API_KEY") [
        | none ↦ refuse 503 "Explorer unavailable"
        | some key ↦ explorer_plan chain (etherscan chain action address key)
      ]

  abbrev parse_explorer : Fields → Option ℕ → Option String → Option String → Planned
  parse_explorer fields (some chain) (some address) (some action) =
      if only_members ("chainId" ∷ "address" ∷ "action" ∷ []) fields
      then plan_explorer chain address action
      else refuse 400 "Unsupported explorer request"
  parse_explorer fields _ _ _ = refuse 400 "Unsupported explorer request"

  -- What a payload asks for, on the route of RPC or on the one of explorers.
  unfoldable pub plan_of : Bool → Json → Planned
  unfolding plan_rpc plan_explorer
  plan_of true (obj fields) =
      parse_rpc fields (known_chain (member "chainId" fields))
        (known_method (as_string (member "method" fields)))
        (short_items (as_items (member "params" fields)))
  plan_of true _ = refuse 400 "Unsupported RPC request"
  plan_of false (obj fields) =
      parse_explorer fields (known_chain (member "chainId" fields))
        (address_of (as_string (member "address" fields)))
        (action_of (as_string (member "action" fields)))
  plan_of false _ = refuse 400 "Unsupported explorer request"
