-- ===== src/Engine/Job/Account.antt =====
-- What the result of a destination job tells of the job.
use governance_seatbelt.Prelude.{
  ℕ, String, Option, none, some, List, [], ok, throw, ◌≡◌, refl, subst, sym, Exception, ◌⊎◌, inl,
  inr,
}
use governance_seatbelt.State.{StateObjects, merge_state_objects}
use governance_seatbelt.CrossChain.{Job, JobStatus, setup_failed}
use governance_seatbelt.Exec.{caught, continue-eq-ok, Result-cases, pure-injective}
use governance_seatbelt.Engine.Env.{PreparedExecution, Env}
use governance_seatbelt.Engine.Job.{Outcome, job_result, execute_destination_job, prepare}
use governance_seatbelt.Engine.Job.Laws.{Trace, IsFair, run_steps-GoesOn}

module _ {S : Type 0} (env : Env S) (job : Job) (block_number : ℕ) (balances : List String) where
  -- What a result says of its job.
  pub record IsAccountOf (timestamp : ℕ) (committed : Option StateObjects) (s : S) (o : Outcome)
      : Type 0 where
    pub fair : IsFair o
    pub of_job : (job_result o).job ≡ job
    pub on_chain : (job_result o).chain_id ≡ job.destination_chain_id
    pub told :
        ((e : Exception) × (working : Option StateObjects) × (merge_state_objects env.get_address
              committed none
            ≡ ok working)
          × ((prepare env job block_number balances timestamp working s).0 ≡ throw e)
          × ((job_result o).status ≡ JobStatus.failure)
          × ((job_result o).step_results ≡ [])
          × ((job_result o).error ≡ some (setup_failed e)))
        ⊎ ((execution : PreparedExecution S) × (working : Option StateObjects)
            × (merge_state_objects env.get_address committed none ≡ ok working)
            × ((prepare env job block_number balances timestamp working s).0 ≡ ok execution)
            × Trace 0 execution.calls (job_result o).status (job_result o).step_results)

  -- Whenever a job returns, its result names the job and its chain, and either the preparation, which is
  -- given the normalized committed state, threw an error, and the job failed with it before any step;
  -- or the preparation succeeded and the step results follow the prepared calls from the first:
  -- all succeeded and the job succeeded, or the last one failed and the job failed.
  pub execute_destination_job-IsAccountOf :
      (timestamp : ℕ) (committed : Option StateObjects) (s t : S) (o : Outcome)
      → execute_destination_job env job block_number balances timestamp committed s ≡ (ok o, t)
      → IsAccountOf timestamp committed s o
  unfolding execute_destination_job
  execute_destination_job-IsAccountOf timestamp committed s t o h =
      let (working, merged, h') =
        continue-eq-ok (merge_state_objects env.get_address committed none) _ s h in
      elim (Result-cases (prepare env job block_number balances timestamp working s).0) [
        | inr (e, thrown) ↦
            subst (λ o. IsAccountOf timestamp committed s o)
              (pure-injective (rw (thrown, caught) at h'))
              (record {
                fair = refl;
                of_job = refl;
                on_chain = refl;
                told = inl (e, working, merged, thrown, refl, refl, refl);
              })
        | inl (execution, prepared) ↦
            let g =
              run_steps-GoesOn env job block_number balances execution 0 working none []
                execution.calls (prepare env job block_number balances timestamp working s).1 t o
                (rw (prepared, caught) at h') in
            record {
              fair = g.fair;
              of_job = g.of_job;
              on_chain = g.on_chain;
              told = inr (
                execution,
                working,
                merged,
                prepared,
                subst (λ l. Trace 0 execution.calls (job_result o).status l) (sym g.extends_)
                    g.traced,
              );
            }
      ]
