-- ===== src/Engine/Job/Total.antt =====
-- Whatever a destination chain answers, a job ends with a result.
use governance_seatbelt.Prelude.{
  ℕ, suc, String, Option, none, some, List, [], ◌∷◌, ◌++◌, ok, ◌≡◌, refl, Bool-cases, inl, inr,
  from_option,
}
use governance_seatbelt.State.{StateObjects}
use governance_seatbelt.State.Merge.{AllValid}
use governance_seatbelt.State.Laws.{merge_state_objects_iff}
use governance_seatbelt.Simulation.{Simulation}
use governance_seatbelt.CrossChain.{Call, Job, StepResult, StepStatus}
use governance_seatbelt.Exec.{caught, Result-cases}
use governance_seatbelt.Engine.Env.{PreparedExecution, Env}
use governance_seatbelt.Engine.Job.{
  Outcome, step, finalize_state, simulate_destination_call, commit_step, run_steps,
  execute_destination_job, prepare,
}

module _ {S : Type 0} (env : Env S) (job : Job) (block_number : ℕ) (balances : List String) where
  -- The adapter's last callback does not throw.
  abbrev pub Finalizes : PreparedExecution S → Type 0
  Finalizes execution =
      (working : Option StateObjects)
      → (committed : Option StateObjects) × (finalize_state env job block_number balances execution
            working
          ≡ ok committed)

  run_steps_total :
      (execution : PreparedExecution S) (finalizes : Finalizes execution) (index : ℕ)
      (working : Option StateObjects) (accumulated : Option Simulation) (before : List StepResult)
      (calls : List Call) (s : S)
      → (o : Outcome) × ((run_steps env job block_number balances execution index working
            accumulated before calls s).0
          ≡ ok o)
  unfolding run_steps
  run_steps_total execution finalizes index working accumulated before [] s =
      let (committed, found) = finalizes working in rw found (_, refl)
  run_steps_total execution finalizes index working accumulated before (call ∷ calls) s =
      elim (Result-cases
        (simulate_destination_call env job block_number balances execution call working s).0) [
          | inr (e, thrown) ↦ rw (thrown, caught) (_, refl)
          | inl (sim, simulated) ↦
              let s' =
                (simulate_destination_call env job block_number balances execution call working
                  s).1 in
              elim (Bool-cases sim.status) [
                | inr bad ↦ simp (simulated, bad, caught) (_, refl)
                | inl good ↦
                    elim (Result-cases
                      (commit_step env job block_number balances execution working sim s').0) [
                        | inr (e, thrown) ↦
                            simp (simulated, good, caught) (rw (thrown, caught) (_, refl))
                        | inl (next, committed) ↦
                            simp (simulated, good, caught)
                              (rw (committed, caught)
                                (run_steps_total execution finalizes (suc index) next (some sim)
                                  (before
                                    ++ step env job block_number balances index call
                                        StepStatus.success (some sim) none
                                      ∷ [])
                                  calls
                                  (commit_step env job block_number balances execution working sim
                                    s').1))
                      ]
              ]
        ]

  -- A job returns a result, whatever the simulations and the adapter's preparation answer or throw,
  -- if the addresses of the chain's committed state are valid and the callback that finalises the
  -- state does not throw.
  pub execute_destination_job_total :
      ((s : S) (execution : PreparedExecution S) (timestamp : ℕ) (working : Option StateObjects)
        → (prepare env job block_number balances timestamp working s).0 ≡ ok execution
        → Finalizes execution)
      → (timestamp : ℕ) (committed : Option StateObjects)
      → AllValid env.get_address (from_option [] committed)
      → (s : S)
      → (o : Outcome) × ((execute_destination_job env job block_number balances timestamp committed
            s).0
          ≡ ok o)
  unfolding execute_destination_job
  execute_destination_job_total finalizes timestamp committed valid s =
      let (working, merged) =
        (merge_state_objects_iff env.get_address committed none).1 (valid, tt) in
      rw merged (elim (Result-cases (prepare env job block_number balances timestamp working s).0) [
        | inr (e, thrown) ↦ rw (thrown, caught) (_, refl)
        | inl (execution, prepared) ↦
            rw (prepared, caught)
              (run_steps_total execution (finalizes s execution timestamp working prepared) 0
                working none [] execution.calls
                (prepare env job block_number balances timestamp working s).1)
      ])
