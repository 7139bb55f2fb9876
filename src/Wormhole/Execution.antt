-- ===== src/Wormhole/Execution.antt =====
-- utils/bridges/wormhole-execution.ts, lines 54 to 78 and 117 to 276: how Wormhole jobs are prepared.
pub mod Laws
pub mod Sequence
use governance_seatbelt.Prelude.{
  ℕ, suc, String, Option, none, some, List, [], ◌∷◌, Bool, true, false, ◌&&◌, not, if◌then◌else◌,
  ◌==◌, string_eq, from_option, is_some, or_else, Result, ok, throw, missing_sequence,
  invalid_sequence,
}
use governance_seatbelt.Dict.{Dict, lookup, put, remove}
use governance_seatbelt.State.{Account, StateObjects, account_at}
use governance_seatbelt.CrossChain.{BridgeType, Job}
use governance_seatbelt.Exec.{Exec, pure, lift, ◌>>=◌}
use governance_seatbelt.Retry.{with_destination_setup_retry}
use governance_seatbelt.Viem.{Viem}
use governance_seatbelt.Engine.Env.{ExecutionContext, PreparedExecution}
use governance_seatbelt.Engine.Job.{default_sender}
use governance_seatbelt.Wormhole.Capabilities.{
  LaneCapabilities, modern, legacy, receiver_core_address, get_wormhole_lane_capabilities,
}
use governance_seatbelt.Wormhole.Receiver.{
  RuntimeState, Codec, ReceiverKey, key_eq, get_overridden_wormhole_receiver_sequence,
  build_wormhole_receiver_simulation_call,
}

-- The runtime store's part for Wormhole, empty where it is not there, and the chains behind the RPC.
pub record World (C : Type 0) : Type 0 where
  pub receivers : Dict ReceiverKey RuntimeState
  pub chain : C

-- What is used of a chain's RPC client, and `findBlockNumberAtOrBeforeTimestamp`.
pub record Rpc (C : Type 0) : Type 0 where
  pub find_block : ℕ → ℕ → Exec C ℕ
  -- the chain, the address, the slot and the block
  pub get_storage_at : ℕ → String → String → ℕ → Exec C (Option String)
  -- the chain, the receiver and the block
  pub read_payload_version : ℕ → String → ℕ → Exec C String
  pub read_next_sequence : ℕ → String → ℕ → Exec C ℕ

abbrev pub on_chain : {C A : Type 0} → Exec C A → Exec (World C) A
on_chain m w = ((m w.chain).0, record w { chain = (m w.chain).1 })

abbrev is_wormhole : BridgeType → Bool
is_wormhole BridgeType.wormhole = true
is_wormhole _ = false

-- A value that the code tests for truth.
abbrev given : Option String → Option String
given none = none
given (some s) = if s == "" then none else some s

-- `{ ...(state ?? {}), [core]: { ...(state?.[core] ?? {}), code } }`
pub with_core_stub : String → String → Option StateObjects → StateObjects
with_core_stub core stub working =
    put core (record (account_at core (from_option [] working)) { code = some stub })
      (from_option [] working)

-- `Object.keys(persistedState).length === 0`
abbrev is_empty : Account → Bool
is_empty a =
    not (is_some a.nonce)
    && not (is_some a.balance)
    && not (is_some a.code)
    && not (is_some a.storage)

abbrev keep_persisted : String → Account → StateObjects → StateObjects
keep_persisted core persisted working =
    if is_empty persisted then remove core working else put core persisted working

-- The state without the simulation-only code of the core.
pub strip_core_code : String → StateObjects → StateObjects
strip_core_code core working = elim (lookup core working) [
  | none ↦ working
  | some account ↦ keep_persisted core (record account { code = none }) working
]

module _ (viem : Viem) where
  pub get_wormhole_receiver_core_address : Job → Result (Option String)
  get_wormhole_receiver_core_address job =
      if is_wormhole job.bridge_type
      then (elim (get_wormhole_lane_capabilities viem job.wormhole_chain_id) [
        | throw e ↦ throw e
        | ok capabilities ↦ ok (receiver_core_address capabilities)
      ])
      else ok none

  abbrev strip_at : Option String → Option StateObjects → Option StateObjects
  strip_at (some core) (some working) = some (strip_core_code core working)
  strip_at _ working = working

  pub strip_simulation_only_state : Job → Option StateObjects → Result (Option StateObjects)
  strip_simulation_only_state job working = elim (get_wormhole_receiver_core_address job) [
    | throw e ↦ throw e
    | ok core ↦ ok (strip_at (given core) working)
  ]

  abbrev pub receiver_key : Job → ReceiverKey
  receiver_key job = record {
    chain_id = job.destination_chain_id;
    receiver = viem.to_lower_case job.l2_from_address;
  }

  module _ {C : Type 0} (codec : Codec) (rpc : Rpc C) where
    unfoldable pub parse_legacy_wormhole_receiver_sequence_storage : Option String → Result ℕ
    parse_legacy_wormhole_receiver_sequence_storage none = throw missing_sequence
    parse_legacy_wormhole_receiver_sequence_storage (some stored) =
        if stored == "0x"
        then throw missing_sequence
        else (elim (codec.big_int stored) [ none ↦ throw invalid_sequence | some n ↦ ok n ])

    -- `overridden ?? …`
    abbrev or_read : Option ℕ → Exec C ℕ → Exec C ℕ
    or_read (some n) m = pure n
    or_read none m = m

    unfoldable pub read_runtime_state : LaneCapabilities → Job → ℕ → Option ℕ → Exec C RuntimeState
    unfolding parse_legacy_wormhole_receiver_sequence_storage
    read_runtime_state (legacy core version slot) job block_number overridden =
        or_read overridden (
          with_destination_setup_retry
            (rpc.get_storage_at job.destination_chain_id job.l2_from_address slot block_number)
          >>= λ stored. lift (parse_legacy_wormhole_receiver_sequence_storage stored))
        >>= λ next. pure (record { expected_payload_version = version; next_sequence = next })
    read_runtime_state _ job block_number overridden =
        with_destination_setup_retry
          (rpc.read_payload_version job.destination_chain_id job.l2_from_address block_number)
        >>= λ version.
            or_read overridden (
              with_destination_setup_retry
                (rpc.read_next_sequence job.destination_chain_id job.l2_from_address block_number))
            >>= λ next. pure (record { expected_payload_version = version; next_sequence = next })

    abbrev block_of : ExecutionContext → Exec C ℕ
    block_of context = elim context.block_number [
      | some n ↦ pure n
      | none ↦ rpc.find_block context.job.destination_chain_id context.source_timestamp
    ]

    -- `runtimeStateByKey[runtimeStateKey] = runtimeState`
    unfoldable pub store_runtime_state : Job → RuntimeState → Exec (World C) (Unit {0})
    store_runtime_state job runtime_state w =
        (ok tt, record w { receivers = put (receiver_key job) runtime_state w.receivers })

    abbrev override_sequence : Option ℕ → RuntimeState → RuntimeState
    override_sequence none state = state
    override_sequence (some n) state = record state { next_sequence = n }

    -- The cached state, refreshed by an override, or what the chain says.
    unfoldable pub cached_or_read :
        LaneCapabilities → ExecutionContext → Option ℕ → Exec (World C) RuntimeState
    unfolding read_runtime_state
    cached_or_read capabilities context overridden w =
        elim (lookup (receiver_key context.job) w.receivers) [
          | some cached ↦ (ok (override_sequence overridden cached), w)
          | none ↦
              on_chain
                (block_of context >>= λ block_number.
                  read_runtime_state capabilities context.job block_number overridden)
                w
        ]

    -- For a lane whose destination is a receiver. Storing a cached state that no override refreshes leaves
    -- the store as it is.
    unfoldable pub resolve_receiver :
        LaneCapabilities → ExecutionContext → Exec (World C) RuntimeState
    resolve_receiver capabilities context = do
      overridden ← lift (
          get_overridden_wormhole_receiver_sequence codec context.working_state
            context.job.l2_from_address)
      runtime_state ← cached_or_read capabilities context overridden
      stored ← store_runtime_state context.job runtime_state
      pure runtime_state

    -- What `onStepSuccess` stores: the sequence of the next message.
    pub advance_sequence : Job → RuntimeState → Option StateObjects → Exec (World C) (Unit {0})
    unfolding store_runtime_state
    advance_sequence job runtime_state next = do
      overridden ← lift (get_overridden_wormhole_receiver_sequence codec next job.l2_from_address)
      store_runtime_state job (record runtime_state {
        next_sequence = from_option (suc runtime_state.next_sequence) overridden;
      })

    -- The core of a lane that is simulated through its receiver.
    abbrev receiver_core : Option String → Option ℕ → LaneCapabilities → Option String
    receiver_core (some core) (some chain_id) (modern c) = some core
    receiver_core (some core) (some chain_id) (legacy c version slot) = some core
    receiver_core _ _ _ = none

    -- `{ calls: job.calls }`
    abbrev direct_execution : Job → PreparedExecution (World C)
    direct_execution job = record {
      calls = job.calls;
      simulation_sender = none;
      get_state_objects = none;
      on_step_success = none;
      finalize_committed_state = none;
    }

    pub prepare_wormhole_execution :
        String → ExecutionContext → Exec (World C) (PreparedExecution (World C))
    prepare_wormhole_execution stub context = do
      core_address ← lift (get_wormhole_receiver_core_address context.job)
      capabilities ← lift (get_wormhole_lane_capabilities viem context.job.wormhole_chain_id)
      elim (receiver_core (given core_address) context.job.wormhole_chain_id capabilities) [
        | none ↦ pure (direct_execution context.job)
        | some core ↦ do
          runtime_state ← resolve_receiver capabilities context
          call ← lift (
              build_wormhole_receiver_simulation_call codec context.job runtime_state
                context.source_timestamp)
          pure (record {
            calls = call ∷ [];
            simulation_sender = some default_sender;
            get_state_objects = some (λ working. ok (some (with_core_stub core stub working)));
            on_step_success = some (advance_sequence context.job runtime_state);
            finalize_committed_state = some (strip_simulation_only_state context.job);
          })
      ]
