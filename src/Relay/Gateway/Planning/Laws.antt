-- ===== src/Relay/Gateway/Planning/Laws.antt =====
-- relay/simulation-gateway.ts: what is asked of a provider.
use governance_seatbelt.Prelude.{
  ℕ, String, Option, none, some, [], ◌∷◌, Bool, true, false, not, ltb, ◌≡◌, ◌≢◌, ◌≤◌, refl, arith,
  if◌then◌else◌, ◌==◌, string_eq, nat_eq, Option-cases, Bool-cases, inl, inr, ap, sym, ◌∙◌,
  none≢some, some-injective, subst, false≢true,
}
use governance_seatbelt.Json.{Json, Items, Fields, str, obj}
use governance_seatbelt.Json.Read.{
  member, as_fields, item_at, set_member, member-set_member, item_at-set_item,
  item_at-set_item_other, pick, only_members,
}
use governance_seatbelt.Relay.Env.{Env}
use governance_seatbelt.Relay.Gateway.Planning.{
  are_trace_options, trace_members, limit_call, parse_rpc, trace_index, Planned, plan_of, refuse,
  planned, Upstream, rpc, Numbers, limit_trace, limit_gas, allowed_gas, big_hex, max_gas,
  trace_timeout, is_trace, is_call, configured_rpc, plan_rpc,
}

-- A call's gas is given as a hexadecimal number that is not too large.
pub HasGas : Option Json → Type 0
HasGas (some (obj fields)) =
    (gas : String) × (member "gas" fields ≡ some (str gas))
    × (n : ℕ) × (big_hex gas ≡ some n)
    × (n ≤ max_gas)
HasGas _ = ⊥

pub HasTimeout : Option Json → Type 0
HasTimeout (some (obj fields)) = member "timeout" fields ≡ some trace_timeout
HasTimeout _ = ⊥

-- What the gateway may ask for on the route of RPC: an allowed method; a gas limit on what executes a
-- call, and a time limit on what traces.
pub record IsLimited (env : Env) (u : Upstream) : Type 0 where
  pub chain : ℕ
  pub name : String
  pub params : Items
  pub asked : u ≡ rpc (configured_rpc env chain) name params
  pub configured : (configured_rpc env chain == "") ≡ false
  pub call_limited : is_call name ≡ true → HasGas (item_at 0 params)
  pub trace_call_limited : name ≡ "debug_traceCall" → HasTimeout (item_at 2 params)
  pub trace_limited : name ≡ "debug_traceTransaction" → HasTimeout (item_at 1 params)

as_fields-some :
    (o : Option Json) (fields : Fields) → as_fields o ≡ some fields → o ≡ some (obj fields)
as_fields-some (some (obj f)) fields h = ap (λ x. some (obj x)) (some-injective h)
as_fields-some none fields h = absurd (none≢some h)
as_fields-some (some _) fields h = absurd (none≢some h)

allowed_gas-bounded :
    (given : Option Json) (gas : String)
    → allowed_gas given ≡ some gas
    → (n : ℕ) × (big_hex gas ≡ some n) × (n ≤ max_gas)
unfolding allowed_gas big_hex
allowed_gas-bounded none gas h =
    subst (λ g. (n : ℕ) × (big_hex g ≡ some n) × (n ≤ max_gas)) (some-injective h)
      (30000000, refl, omega arith)
allowed_gas-bounded (some (str g)) gas h = elim (Option-cases (big_hex g)) [
  | inl bad ↦ absurd (none≢some (rw (bad, allowed_gas) at h))
  | inr (n, value) ↦ elim (Bool-cases (ltb max_gas n)) [
    | inl much ↦ absurd (none≢some (rw (value, much, allowed_gas) at h))
    | inr fits ↦
        let same = some-injective (rw (value, fits, allowed_gas) at h) in
        subst (λ x. (m : ℕ) × (big_hex x ≡ some m) × (m ≤ max_gas)) same (n, value, ground arith)
  ]
]
allowed_gas-bounded (some _) gas h = absurd (none≢some h)

limit_gas-HasGas :
    (params limited : Items) → limit_gas params ≡ some limited → HasGas (item_at 0 limited)
unfolding limit_gas HasGas
limit_gas-HasGas params limited h = elim (Option-cases (as_fields (item_at 0 params))) [
  | inl no_call ↦ absurd (none≢some (rw (no_call, limit_gas) at h))
  | inr (fields, call) ↦ elim (Option-cases (allowed_gas (member "gas" fields))) [
    | inl much ↦ absurd (none≢some (rw (call, much, limit_gas) at h))
    | inr (gas, fits) ↦
        let same = some-injective (rw (call, fits, limit_gas) at h) in
        let (n, value, small) = allowed_gas-bounded (member "gas" fields) gas fits in
        subst (λ items. HasGas (item_at 0 items)) same
          (rw
            (item_at-set_item 0 (obj (set_member "gas" (str gas) fields)) (obj fields) params
              (as_fields-some _ fields call))
            (gas, member-set_member "gas" "gas" (str gas) fields, n, value, small))
  ]
]

limit_gas_other :
    (m : ℕ) (params limited : Items)
    → m ≢ 0
    → limit_gas params ≡ some limited
    → item_at m limited ≡ item_at m params
unfolding limit_gas
limit_gas_other m params limited differ h = elim (Option-cases (as_fields (item_at 0 params))) [
  | inl no_call ↦ absurd (none≢some (rw (no_call, limit_gas) at h))
  | inr (fields, call) ↦ elim (Option-cases (allowed_gas (member "gas" fields))) [
    | inl much ↦ absurd (none≢some (rw (call, much, limit_gas) at h))
    | inr (gas, fits) ↦
        ap (item_at m) (sym (some-injective (rw (call, fits, limit_gas) at h)))
        ∙ item_at-set_item_other m 0 _ params differ
  ]
]

limit_trace-HasTimeout :
    (index : ℕ) (params limited : Items)
    → limit_trace index params ≡ some limited
    → HasTimeout (item_at index limited)
unfolding limit_trace HasTimeout
limit_trace-HasTimeout index params limited h =
    elim (Option-cases (as_fields (item_at index params))) [
      | inl no_options ↦ absurd (none≢some (rw (no_options, limit_trace) at h))
      | inr (fields, options) ↦ elim (Bool-cases (are_trace_options fields)) [
        | inr bad ↦ absurd (none≢some (rw (options, bad, limit_trace) at h))
        | inl good ↦
            let same = some-injective (rw (options, good, limit_trace) at h) in
            subst (λ items. HasTimeout (item_at index items)) same
              (rw
                (item_at-set_item index
                  (obj (set_member "timeout" trace_timeout (pick trace_members fields)))
                  (obj fields) params (as_fields-some _ fields options))
                (member-set_member "timeout" "timeout" trace_timeout (pick trace_members fields)))
      ]
    ]

module _ (numbers : Numbers) (env : Env) where
  abbrev pub AreLimited : Planned → Type 0
  AreLimited (refuse status message) = Unit
  AreLimited (planned plan) = IsLimited env plan.upstream

  -- The time limits that a method needs.
  record IsTimed (name : String) (params : Items) : Type 0 where
    trace_call : name ≡ "debug_traceCall" → HasTimeout (item_at 2 params)
    trace_transaction : name ≡ "debug_traceTransaction" → HasTimeout (item_at 1 params)

  limit_call-AreLimited :
      (chain : ℕ) (name : String) (params : Items)
      → (configured_rpc env chain == "") ≡ false
      → IsTimed name params
      → AreLimited (limit_call numbers env chain (configured_rpc env chain) name params)
  limit_call-AreLimited chain name params configured timed = elim (Bool-cases (is_call name)) [
    | inr no_call ↦ rw no_call (record {
      chain = chain;
      name = name;
      params = params;
      asked = refl;
      configured = configured;
      call_limited = λ call. absurd (false≢true (sym no_call ∙ call));
      trace_call_limited = timed.trace_call;
      trace_limited = timed.trace_transaction;
    })
    | inl call ↦ elim (Option-cases (limit_gas params)) [
      | inl much ↦ rw (call, much) tt
      | inr (limited, fits) ↦
          rw (call, fits)
            (record {
              chain = chain;
              name = name;
              params = limited;
              asked = refl;
              configured = configured;
              call_limited = λ _. limit_gas-HasGas params limited fits;
              trace_call_limited = λ e.
                  rw (limit_gas_other 2 params limited (λ z. omega arith) fits)
                    (timed.trace_call e);
              trace_limited = λ e.
                  rw (limit_gas_other 1 params limited (λ z. omega arith) fits)
                    (timed.trace_transaction e);
            })
    ]
  ]

  IsTimed-trace :
      (name : String) (params limited : Items)
      → limit_trace (trace_index name) params ≡ some limited
      → IsTimed name limited
  IsTimed-trace name params limited traced =
      let timeout = limit_trace-HasTimeout (trace_index name) params limited traced in
      record {
        trace_call = λ e. subst (λ n. HasTimeout (item_at (trace_index n) limited)) e timeout;
        trace_transaction =
            λ e. subst (λ n. HasTimeout (item_at (trace_index n) limited)) e timeout;
      }

  not_a_trace : (name other : String) → is_trace name ≡ false → is_trace other ≡ true → name ≢ other
  not_a_trace name other no_trace trace e =
      false≢true (sym no_trace ∙ ap (λ n. is_trace n) e ∙ trace)

  by_trace :
      (chain : ℕ) (name : String) (params : Items)
      → (configured_rpc env chain == "") ≡ false
      → (trace : Bool) → is_trace name ≡ trace
      → AreLimited (
          if not trace
          then limit_call numbers env chain (configured_rpc env chain) name params
          else elim (limit_trace (trace_index name) params) [
            | none ↦ refuse 400 "Unsupported trace options"
            | some limited ↦ limit_call numbers env chain (configured_rpc env chain) name limited
          ])
  by_trace chain name params given false no_trace =
      limit_call-AreLimited chain name params given (record {
        trace_call = λ e. absurd (not_a_trace name "debug_traceCall" no_trace refl e);
        trace_transaction = λ e. absurd (not_a_trace name "debug_traceTransaction" no_trace refl e);
      })
  by_trace chain name params given true trace =
      elim (Option-cases (limit_trace (trace_index name) params)) [
        | inl bad ↦ rw bad tt
        | inr (limited, good) ↦ rw good (
            limit_call-AreLimited chain name limited given (IsTimed-trace name params limited good))
      ]

  plan_rpc-AreLimited :
      (chain : ℕ) (name : String) (params : Items)
      → AreLimited (plan_rpc numbers env chain name params)
  unfolding plan_rpc
  plan_rpc-AreLimited chain name params = elim (Bool-cases (configured_rpc env chain == "")) [
    | inl missing ↦ rw missing tt
    | inr given ↦ rw given (by_trace chain name params given (is_trace name) refl)
  ]

  parse_rpc-AreLimited :
      (fields : Fields) (chain : Option ℕ) (name : Option String) (params : Option Items)
      → AreLimited (parse_rpc numbers env fields chain name params)
  parse_rpc-AreLimited fields none name params = tt
  parse_rpc-AreLimited fields (some chain) none params = tt
  parse_rpc-AreLimited fields (some chain) (some name) none = tt
  parse_rpc-AreLimited fields (some chain) (some name) (some params) =
      elim (Bool-cases (only_members ("chainId" ∷ "method" ∷ "params" ∷ []) fields)) [
        | inl strict ↦ rw strict (plan_rpc-AreLimited chain name params)
        | inr more ↦ rw more tt
      ]

  -- Whatever a request on the route of RPC holds, what the gateway asks of a node for it is limited: the
  -- node is the configured one of a chain, the call of `eth_call` or `debug_traceCall` carries a gas limit
  -- of at most 30 million, and both tracing methods carry the time limit of the gateway.
  pub plan_of-AreLimited : (payload : Json) → AreLimited (plan_of numbers env true payload)
  unfolding plan_of
  plan_of-AreLimited (obj fields) = parse_rpc-AreLimited fields _ _ _
  plan_of-AreLimited _ = tt
