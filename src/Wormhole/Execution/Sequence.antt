-- ===== src/Wormhole/Execution/Sequence.antt =====
-- The sequences of the messages that the jobs of a receiver stand for.
use governance_seatbelt.Prelude.{
  suc, Option, none, some, false, ◌==◌, eq_refl, ◌≡◌, refl, ◌∙◌, sym, ap, subst, ok, if◌then◌else◌,
}
use governance_seatbelt.Dict.{lookup, put}
use governance_seatbelt.Dict.Laws.{lookup-put}
use governance_seatbelt.State.{StateObjects}
use governance_seatbelt.CrossChain.{Job}
use governance_seatbelt.Exec.{continue}
use governance_seatbelt.Viem.{Viem}
use governance_seatbelt.Engine.Env.{ExecutionContext}
use governance_seatbelt.Wormhole.Capabilities.{LaneCapabilities}
use governance_seatbelt.Wormhole.Receiver.{
  RuntimeState, Codec, ReceiverKey, key_eq, get_overridden_wormhole_receiver_sequence,
}
use governance_seatbelt.Wormhole.Execution.{
  World, Rpc, receiver_key, resolve_receiver, advance_sequence, cached_or_read, store_runtime_state,
}

module _ {C : Type 0} (viem : Viem) (codec : Codec) (rpc : Rpc C) where
  -- What a resolution leaves in the runtime store.
  pub record IsResolved (job : Job) (w w' : World C) (r : RuntimeState) : Type 0 where
    pub stored : lookup (receiver_key viem job) w'.receivers ≡ some r
    pub others :
        (k : ReceiverKey)
        → (receiver_key viem job == k) ≡ false
        → lookup k w'.receivers ≡ lookup k w.receivers

  advance_sequence-receivers :
      (job : Job) (r : RuntimeState) (next : Option StateObjects) (w : World C)
      → get_overridden_wormhole_receiver_sequence codec next job.l2_from_address ≡ ok none
      → (advance_sequence viem codec rpc job r next w).1.receivers
        ≡ put (receiver_key viem job) (record r { next_sequence = suc r.next_sequence }) w.receivers
  unfolding advance_sequence store_runtime_state
  advance_sequence-receivers job r next w none_next = rw (none_next, continue) refl

  resolve_receiver_of_cached :
      (capabilities : LaneCapabilities) (context : ExecutionContext) (w : World C)
      (r : RuntimeState)
      → get_overridden_wormhole_receiver_sequence codec context.working_state
          context.job.l2_from_address
        ≡ ok none
      → lookup (receiver_key viem context.job) w.receivers ≡ some r
      → (resolve_receiver viem codec rpc capabilities context w).0 ≡ ok r
  unfolding resolve_receiver cached_or_read store_runtime_state
  resolve_receiver_of_cached capabilities context w r none_now cached =
      rw (none_now, continue) (rw (cached, continue) refl)

  -- Once a message of a receiver succeeded with some sequence, the next job of that receiver, on
  -- whichever lane and at whichever block, is simulated with the sequence after it and the same payload
  -- version, if neither state overrides the sequence.
  pub resolve_receiver-advance_sequence :
      (job : Job) (r : RuntimeState) (next : Option StateObjects) (w : World C)
      (capabilities : LaneCapabilities) (context : ExecutionContext)
      → receiver_key viem context.job ≡ receiver_key viem job
      → get_overridden_wormhole_receiver_sequence codec next job.l2_from_address ≡ ok none
      → get_overridden_wormhole_receiver_sequence codec context.working_state
          context.job.l2_from_address
        ≡ ok none
      → (resolve_receiver viem codec rpc capabilities context
          (advance_sequence viem codec rpc job r next w).1).0
        ≡ ok (record r { next_sequence = suc r.next_sequence })
  unfolding resolve_receiver advance_sequence store_runtime_state cached_or_read
  resolve_receiver-advance_sequence job r next w capabilities context same none_next none_now =
      let r' : RuntimeState = record r { next_sequence = suc r.next_sequence } in
      let w₂ = (advance_sequence viem codec rpc job r next w).1 in
      let advanced = advance_sequence-receivers job r next w none_next in
      let found : lookup (receiver_key viem context.job) w₂.receivers ≡ some r' =
        ap (lookup (receiver_key viem context.job)) advanced
        ∙ lookup-put (receiver_key viem job) (receiver_key viem context.job) r' w.receivers
        ∙ subst
            (λ k. (if receiver_key viem job == k then some r' else lookup k w.receivers) ≡ some r')
            (sym same) (rw (eq_refl (receiver_key viem job)) refl) in
      resolve_receiver_of_cached capabilities context w₂ r' none_now found
