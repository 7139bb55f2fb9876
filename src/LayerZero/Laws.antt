-- ===== src/LayerZero/Laws.antt =====
-- Which jobs the LayerZero parser extracts, and for which receivers.
use mathlib.Core.Option.{some-injective}
use governance_seatbelt.Prelude.{
  malformed_set_trusted_remote, malformed_execute, unsupported_remote_chain, undecodable_payload, ℕ,
  suc, String, none, some, List, [], ◌∷◌, false, ◌==◌, nat_eq, eq_iff, leb, ◌≤◌, ◌≡◌, ◌≢◌, refl,
  ◌∙◌, sym, ap, subst, arith, Bool-cases, inl, inr, or_else, or_else_assoc, from_option, ok,
  or_throw, >>=-eq-ok, ok-injective, All,
}
use governance_seatbelt.Dict.{Dict, lookup}
use governance_seatbelt.CrossChain.{Call, Job}
use governance_seatbelt.Viem.{Viem}
use governance_seatbelt.LayerZero.{
  some_calls, execution_calls, decode_layer_zero_executor_payload, Lane, ethereum_remote_chain_id,
  get_layer_zero_lane_by_remote_chain_id, kind_of, set_active_receiver, decode_execute_call,
  lane_job, extract_layer_zero_from, extract_layer_zero_jobs_from_proposal,
}
use governance_seatbelt.LayerZero.Receivers.{
  set_here, Kind-cases, or_throw-eq-ok, job_list-eq-ok, some_calls-present, set_here_of_set,
  last_set, set_active_receiver-lookup,
}

module _ (viem : Viem) where
  pub record IsLaneJob (i : ℕ) (active : Dict ℕ String) (targets calldatas : List String)
      (job : Job) : Type 0 where
    pub lane : Lane
    pub known :
        get_layer_zero_lane_by_remote_chain_id viem lane.layer_zero_remote_chain_id ≡ some lane
    pub on_chain : job.destination_chain_id ≡ lane.destination_chain_id
    pub receiver :
        job.l2_from_address
        ≡ from_option lane.l2_from_address (
            or_else
              (last_set viem i targets calldatas job.source_order lane.layer_zero_remote_chain_id)
              (lookup lane.layer_zero_remote_chain_id active))
    pub trusts :
        job.layer_zero_trusted_remote
        ≡ some (record {
          source_remote_chain_id = ethereum_remote_chain_id;
          expected_remote_address = lane.sender_target;
        })
    pub has_calls : job.calls ≢ []
    pub from_here : i ≤ job.source_order

  IsLaneJob-later :
      (i : ℕ) (active next : Dict ℕ String) (target calldata : String)
      (targets calldatas : List String)
      → ((c : ℕ) → lookup c next ≡ or_else (set_here viem target calldata c) (lookup c active))
      → (jobs : List Job) → All (IsLaneJob (suc i) next targets calldatas) jobs
      → All (IsLaneJob i active (target ∷ targets) (calldata ∷ calldatas)) jobs
  IsLaneJob-later i active next target calldata targets calldatas same [] h = tt
  IsLaneJob-later i active next target calldata targets calldatas same (job ∷ jobs) (h, hs) =
      let c = h.lane.layer_zero_remote_chain_id in
      let later = last_set viem (suc i) targets calldatas job.source_order c in
      let now : leb job.source_order i ≡ false = ground (arith, h.from_here) in
      let step : last_set viem i (target ∷ targets) (calldata ∷ calldatas) job.source_order c
          ≡ or_else later (set_here viem target calldata c) =
        rw now refl in
      (
        record {
          lane = h.lane;
          known = h.known;
          on_chain = h.on_chain;
          receiver =
              h.receiver
              ∙ ap (from_option h.lane.l2_from_address) (
                  ap (or_else later) (same c)
                  ∙ sym (or_else_assoc later (set_here viem target calldata c) (lookup c active))
                  ∙ ap (λ v. or_else v (lookup c active)) (sym step));
          trusts = h.trusts;
          has_calls = h.has_calls;
          from_here = omega (arith, h.from_here);
        },
        IsLaneJob-later i active next target calldata targets calldatas same jobs hs,
      )

  get_layer_zero_lane_by_remote_chain_id-eq-some :
      (c : ℕ) {lane : Lane}
      → get_layer_zero_lane_by_remote_chain_id viem c ≡ some lane
      → c ≡ lane.layer_zero_remote_chain_id
  unfolding get_layer_zero_lane_by_remote_chain_id
  get_layer_zero_lane_by_remote_chain_id-eq-some c {lane} h = elim (Bool-cases (106 == c)) [
    | inl avalanche ↦
        sym ((eq_iff 106 c).0 avalanche)
        ∙ ap (λ l. l.layer_zero_remote_chain_id) (some-injective _ _ (rw avalanche at h))
    | inr not_avalanche ↦ elim (Bool-cases (398 == c)) [
      | inl megaeth ↦
          sym ((eq_iff 398 c).0 megaeth)
          ∙ ap (λ l. l.layer_zero_remote_chain_id)
              (some-injective _ _ (rw (not_avalanche, megaeth) at h))
      | inr neither ↦ cc (rw (not_avalanche, neither) at h)
    ]
  ]

  last_set_of_here :
      (i : ℕ) (targets calldatas : List String) (c : ℕ)
      → last_set viem i targets calldatas i c ≡ none
  last_set_of_here i [] calldatas c = refl
  last_set_of_here i (target ∷ targets) [] c = refl
  last_set_of_here i (target ∷ targets) (calldata ∷ calldatas) c = ground arith

  decode_execute_call-eq-ok :
      (i : ℕ) (decoded : ℕ × String) (lane : Lane) (calls : List Call)
      → decode_execute_call viem i decoded ≡ ok (lane, calls)
      → (get_layer_zero_lane_by_remote_chain_id viem decoded.0 ≡ some lane) × (calls ≢ [])
  unfolding decode_execute_call
  decode_execute_call-eq-ok i (chain_id, payload) lane calls h =
      let (l, found, h₁) =
        >>=-eq-ok
          (or_throw (unsupported_remote_chain chain_id i)
            (get_layer_zero_lane_by_remote_chain_id viem chain_id))
          _ h in
      let (p, supported, h₂) =
        >>=-eq-ok
          (or_throw (undecodable_payload chain_id i)
            (decode_layer_zero_executor_payload viem payload))
          _ h₁ in
      let (cs, built, h₃) =
        >>=-eq-ok (execution_calls viem 0 p.targets p.values p.signatures p.calldatas) _ h₂ in
      let (given, present, h₄) =
        >>=-eq-ok (some_calls viem chain_id i cs) (λ given. ok (l, given)) h₃ in
      let pair = ok-injective h₄ in
      (
        or_throw-eq-ok _ _ found ∙ ap (λ x. some x.0) pair,
        λ none_left.
            some_calls-present viem chain_id i cs given present (ap (λ x. x.1) pair ∙ none_left),
      )

  lane_job-IsLaneJob :
      (i : ℕ) (active : Dict ℕ String) (targets calldatas : List String) (c : ℕ) (lane : Lane)
      (calls : List Call)
      → get_layer_zero_lane_by_remote_chain_id viem c ≡ some lane
      → calls ≢ []
      → IsLaneJob i active targets calldatas (lane_job viem i active c lane calls)
  lane_job-IsLaneJob i active targets calldatas c lane calls found given =
      let same = get_layer_zero_lane_by_remote_chain_id-eq-some c found in
      record {
        lane = lane;
        known = subst (λ n. get_layer_zero_lane_by_remote_chain_id viem n ≡ some lane) same found;
        on_chain = refl;
        receiver =
            ap (λ n. from_option lane.l2_from_address (lookup n active)) same
            ∙ ap
                (λ v.
                  from_option lane.l2_from_address
                    (or_else v (lookup lane.layer_zero_remote_chain_id active)))
                (sym (last_set_of_here i targets calldatas lane.layer_zero_remote_chain_id));
        trusts = refl;
        has_calls = given;
        from_here = omega arith;
      }

  extract_layer_zero_from-IsLaneJob :
      (i : ℕ) (active : Dict ℕ String) (targets calldatas : List String) (jobs : List Job)
      → extract_layer_zero_from viem i active targets calldatas ≡ ok jobs
      → All (IsLaneJob i active targets calldatas) jobs
  unfolding extract_layer_zero_from
  extract_layer_zero_from-IsLaneJob i active [] calldatas jobs h =
      subst (All (IsLaneJob i active [] calldatas)) (ok-injective h) tt
  extract_layer_zero_from-IsLaneJob i active (target ∷ targets) [] jobs h =
      subst (All (IsLaneJob i active (target ∷ targets) [])) (ok-injective h) tt
  extract_layer_zero_from-IsLaneJob i active (target ∷ targets) (calldata ∷ calldatas) jobs h =
      elim (Kind-cases (kind_of viem target calldata)) [
        | inl is_other ↦
            IsLaneJob-later i active active target calldata targets calldatas
              (λ c. rw (or_else, is_other) refl) jobs
              (extract_layer_zero_from-IsLaneJob (suc i) active targets calldatas jobs
                (rw (is_other, extract_layer_zero_from) at h))
        | inr (inl is_set) ↦
            let (decoded, read, h₁) =
              >>=-eq-ok
                (or_throw (malformed_set_trusted_remote i)
                  (viem.decode_set_trusted_remote calldata))
                _ (rw (is_set, extract_layer_zero_from) at h) in
            let (next, put_there, h₂) =
              >>=-eq-ok (set_active_receiver viem i decoded active) _ h₁ in
            IsLaneJob-later i active next target calldata targets calldatas
              (λ c.
                set_active_receiver-lookup viem i decoded active put_there c
                ∙ ap (λ v. or_else v (lookup c active))
                    (sym (
                      set_here_of_set viem target calldata c decoded is_set
                        (or_throw-eq-ok _ _ read))))
              jobs (extract_layer_zero_from-IsLaneJob (suc i) next targets calldatas jobs h₂)
        | inr (inr is_execute) ↦
            let (decoded, read, h₁) =
              >>=-eq-ok (or_throw (malformed_execute i) (viem.decode_execute calldata)) _
                (rw (is_execute, extract_layer_zero_from) at h) in
            let ((lane, calls), built, h₂) = >>=-eq-ok (decode_execute_call viem i decoded) _ h₁ in
            let (found, given) = decode_execute_call-eq-ok i decoded lane calls built in
            let (rest, extracted, same) =
              job_list-eq-ok (lane_job viem i active decoded.0 lane calls)
                (extract_layer_zero_from viem (suc i) active targets calldatas) h₂ in
            subst (All (IsLaneJob i active (target ∷ targets) (calldata ∷ calldatas))) same (
              lane_job-IsLaneJob i active (target ∷ targets) (calldata ∷ calldatas) decoded.0 lane
                  calls found given,
              IsLaneJob-later i active active target calldata targets calldatas
                  (λ c. rw (or_else, is_execute) refl) rest
                  (extract_layer_zero_from-IsLaneJob (suc i) active targets calldatas rest
                    extracted),
            )
      ]

  -- Whenever the LayerZero parser returns, each job has at least one call and is for one of the
  -- supported lanes: on the lane's chain, trusting the lane's sender from Ethereum, and run by the last
  -- receiver that an earlier call of the proposal sets for the lane's remote chain, or by the lane's own
  -- receiver if none does.
  pub extract_layer_zero_jobs_from_proposal-IsLaneJob :
      (targets calldatas : List String) (jobs : List Job)
      → extract_layer_zero_jobs_from_proposal viem targets calldatas ≡ ok jobs
      → All (IsLaneJob 0 [] targets calldatas) jobs
  unfolding extract_layer_zero_jobs_from_proposal
  extract_layer_zero_jobs_from_proposal-IsLaneJob targets calldatas jobs h =
      extract_layer_zero_from-IsLaneJob 0 [] targets calldatas jobs h
