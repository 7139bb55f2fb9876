-- ===== src/Relay/Gateway/Laws.antt =====
-- relay/simulation-gateway.ts: when a provider is asked.
use governance_seatbelt.Prelude.{
  ℕ, zero, suc, String, Option, none, some, List, Bool, true, false, ◌≡◌, ◌≢◌, refl, if◌then◌else◌,
  ◌==◌, string_eq, nat_eq, Result, ok, throw, Option-cases, Bool-cases, inl, inr, sym, none≢some,
  eq_iff,
}
use governance_seatbelt.Json.{Json}
use governance_seatbelt.Relay.Env.{Env}
use governance_seatbelt.Relay.Quota.{Limit}
use governance_seatbelt.Relay.Gateway.Planning.{
  Plan, Planned, plan_of, refuse, planned, Numbers, present,
}
use governance_seatbelt.Relay.Gateway.{
  Response, reply, access_granted, rpc_error, forwarded, Request, World, Machine, authorize,
  access_response, quota_limits, run_plan, gateway, carry_out, run_planned, run_payload,
  access_code, is_code_hash,
}

-- An answer with nothing from a provider in it.
abbrev IsOwn : Response → Type 0
IsOwn (rpc_error value) = ⊥
IsOwn (forwarded value) = ⊥
IsOwn _ = Unit

module _ (machine : Machine) (numbers : Numbers) (env : Env) where
  -- The request is a POST with the access code whose hash is configured.
  pub record IsAuthorized (request : Request) : Type 0 where
    pub posted : request.method ≡ "POST"
    pub hash : String
    pub configured : present env "SEATBELT_ACCESS_CODE_SHA256" ≡ some hash
    pub well_formed : is_code_hash hash ≡ true
    pub code : String
    pub given : access_code request.authorization ≡ some code
    pub matches : machine.sha256 code ≡ hash

  refused : {A : Type 0} {r : Response} → some r ≡ none → A
  refused h = absurd (none≢some (sym h))

  authorize-IsAuthorized :
      (method : String) (authorization : Option String) (route : String)
      (payload : Bool × Option Json)
      → authorize machine numbers env (record {
        method = method;
        authorization = authorization;
        route = route;
        payload = payload;
      })
        ≡ none
      → IsAuthorized (record {
        method = method;
        authorization = authorization;
        route = route;
        payload = payload;
      })
  unfolding authorize
  authorize-IsAuthorized method authorization route payload h =
      elim (Bool-cases (method == "POST")) [
        | inr other ↦ refused (rw other at h)
        | inl posted ↦ elim (Option-cases (present env "SEATBELT_ACCESS_CODE_SHA256")) [
          | inl unset ↦ refused (rw (posted, unset) at h)
          | inr (hash, set) ↦ elim (Bool-cases (is_code_hash hash)) [
            | inr bad ↦ refused (rw (posted, set, bad) at h)
            | inl good ↦ elim (Option-cases (access_code authorization)) [
              | inl absent ↦ refused (rw (posted, set, good, absent) at h)
              | inr (code, given) ↦ elim (Bool-cases (machine.sha256 code == hash)) [
                | inr wrong ↦ refused (rw (posted, set, good, given, wrong) at h)
                | inl right ↦ record {
                  posted = (eq_iff method "POST").0 posted;
                  hash = hash;
                  configured = set;
                  well_formed = good;
                  code = code;
                  given = given;
                  matches = (eq_iff (machine.sha256 code) hash).0 right;
                }
              ]
            ]
          ]
        ]
      ]

  IsOwn-if :
      (b : Bool) (status : ℕ) (message : String)
      → IsOwn (if b then access_granted else reply status message none)
  IsOwn-if true status message = tt
  IsOwn-if false status message = tt

  access_response-IsOwn : IsOwn (access_response machine numbers env)
  unfolding access_response
  access_response-IsOwn = IsOwn-if _ 503 "Managed access is not configured"

  abbrev IsOwnRefusal : Option Response → Type 0
  IsOwnRefusal none = Unit
  IsOwnRefusal (some r) = IsOwn r

  authorize-IsOwnRefusal :
      (request : Request) → IsOwnRefusal (authorize machine numbers env request)
  unfolding authorize
  authorize-IsOwnRefusal request = elim (Bool-cases (request.method == "POST")) [
    | inr other ↦ rw other tt
    | inl posted ↦ elim (Option-cases (present env "SEATBELT_ACCESS_CODE_SHA256")) [
      | inl unset ↦ rw (posted, unset) tt
      | inr (hash, set) ↦ elim (Bool-cases (is_code_hash hash)) [
        | inr bad ↦ rw (posted, set, bad) tt
        | inl good ↦ elim (Option-cases (access_code request.authorization)) [
          | inl absent ↦ rw (posted, set, good, absent) tt
          | inr (code, given) ↦
              rw (posted, set, good, given) (own_code (machine.sha256 code == hash))
        ]
      ]
    ]
  ]
    where
      own_code :
          (b : Bool)
          → IsOwnRefusal (if b then none else some (reply 401 "Access code required" none))
      own_code true = tt
      own_code false = tt

  module _ {S : Type 0} (world : World S) (request : Request) (s : S) where
    pub data IsGuarded : Response × S → Type 0 where
      -- nothing is asked of anyone
      turned_away : {r : Response} → IsOwn r → IsGuarded (r, s)
      -- the quotas alone are asked, and do not allow it
      limited :
          {r : Response} (plan : Plan) (limits : List Limit)
          → IsAuthorized request
          → quota_limits machine numbers env plan ≡ some limits
          → (world.run_quota_script limits s).0 ≢ ok 0
          → IsOwn r
          → IsGuarded (r, (world.run_quota_script limits s).1)
      asked :
          {r : Response} (payload : Json) (plan : Plan) (limits : List Limit)
          → IsAuthorized request
          → plan_of numbers env (request.route == "/api/v1/rpc") payload ≡ planned plan
          → quota_limits machine numbers env plan ≡ some limits
          → (world.run_quota_script limits s).0 ≡ ok 0
          → IsGuarded (r, (world.fetch plan.upstream (world.run_quota_script limits s).1).1)

    run_plan-IsGuarded :
        (payload : Json) (plan : Plan)
        → IsAuthorized request
        → plan_of numbers env (request.route == "/api/v1/rpc") payload ≡ planned plan
        → IsGuarded (run_plan machine numbers env world plan s)
    unfolding run_plan
    run_plan-IsGuarded payload plan authorized plans =
        elim (Option-cases (quota_limits machine numbers env plan)) [
          | inl unset ↦ rw (unset, run_plan) (turned_away tt)
          | inr (limits, set) ↦
              rw (set, run_plan) (by_answer limits set (world.run_quota_script limits s).0 refl)
        ]
      where
        by_answer :
            (limits : List Limit)
            → quota_limits machine numbers env plan ≡ some limits
            → (answer : Result ℕ) → (world.run_quota_script limits s).0 ≡ answer
            → IsGuarded (
                carry_out machine numbers env world plan answer (world.run_quota_script limits s).1)
        by_answer limits set (throw e) same =
            limited plan limits authorized set (λ zero_. cc (same, zero_)) tt
        by_answer limits set (ok (suc n)) same =
            limited plan limits authorized set (λ zero_. cc (same, zero_)) tt
        by_answer limits set (ok zero) same = asked payload plan limits authorized plans set same

    run_payload-IsGuarded :
        (payload : Bool × Option Json)
        → IsAuthorized request
        → IsGuarded (run_payload machine numbers env world request.route payload s)
    run_payload-IsGuarded (too_large, none) authorized = turned_away tt
    run_payload-IsGuarded (too_large, some payload) authorized =
        by_plan (plan_of numbers env (request.route == "/api/v1/rpc") payload) refl
      where
        by_plan :
            (p : Planned)
            → plan_of numbers env (request.route == "/api/v1/rpc") payload ≡ p
            → IsGuarded (run_planned machine numbers env world p s)
        by_plan (refuse status message) same = turned_away tt
        by_plan (planned plan) same = run_plan-IsGuarded payload plan authorized same

    -- A provider is asked only for a POST request that carries the access code whose hash is configured,
    -- for a payload that the gateway takes, and when the quotas have been asked and allow it; and then only
    -- once, for what the payload was planned as. The quotas are asked only for an authorized request. In
    -- every other case nothing is asked and the answer has nothing from a provider in it.
    pub gateway-IsGuarded : IsGuarded (gateway machine numbers env world request s)
    unfolding gateway
    gateway-IsGuarded =
        by_refusal (authorize machine numbers env request) refl (authorize-IsOwnRefusal request)
      where
        after :
            IsAuthorized request
            → (b : Bool)
            → IsGuarded (
                if b
                then (access_response machine numbers env, s)
                else run_payload machine numbers env world request.route request.payload s)
        after authorized true = turned_away access_response-IsOwn
        after authorized false = run_payload-IsGuarded request.payload authorized

        by_refusal :
            (o : Option Response)
            → authorize machine numbers env request ≡ o
            → IsOwnRefusal o
            → IsGuarded (elim o [
              | some refusal ↦ (refusal, s)
              | none ↦
                  if request.route == "/api/v1/access"
                  then (access_response machine numbers env, s)
                  else run_payload machine numbers env world request.route request.payload s
            ])
        by_refusal (some r) same own = turned_away own
        by_refusal none same own =
            after
              (authorize-IsAuthorized request.method request.authorization request.route
                request.payload same)
              (request.route == "/api/v1/access")
