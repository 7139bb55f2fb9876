-- ===== src/Engine/Job/Laws.antt =====
-- The step results of a job tell what happened to its calls, in order.
use governance_seatbelt.Prelude.{
  ℕ, suc, String, Option, none, some, List, [], ◌∷◌, ◌++◌, ok, ◌≡◌, refl, sym, ◌∙◌, subst,
  Bool-cases, inl, inr, append_assoc, append-nil,
}
use governance_seatbelt.State.{StateObjects}
use governance_seatbelt.Simulation.{Simulation}
use governance_seatbelt.CrossChain.{Call, Job, JobStatus, JobError, StepResult, StepStatus}
use governance_seatbelt.Exec.{pure, caught, continue-eq-ok, Result-cases, pure-injective}
use governance_seatbelt.Engine.Env.{PreparedExecution, Env}
use governance_seatbelt.Engine.Job.{
  Outcome, success, failure, job_result, step, failed_result, succeeded_result, finalize_state,
  simulate_destination_call, commit_step, run_steps,
}

-- A step result that says what became of the call at an index.
pub record IsStep (index : ℕ) (call : Call) (status : StepStatus) (r : StepResult) : Type 0 where
  pub at_index : r.step_index ≡ index
  pub of_call : r.call ≡ call
  pub with_status : r.status ≡ status

-- The step results of a run over the calls from `index` on, and how the run ended.
pub data Trace : ℕ → List Call → JobStatus → List StepResult → Type 0 where
  -- every call succeeded
  finished : {i : ℕ} → Trace i [] JobStatus.success []
  -- a call that could not be simulated, or that reverted, is the last
  stopped :
      {i : ℕ} {call : Call} {calls : List Call} {r : StepResult}
      → IsStep i call StepStatus.failure r
      → Trace i (call ∷ calls) JobStatus.failure (r ∷ [])
  -- the call succeeded, and its state could not be carried over: a success and a failure at one index
  lost :
      {i : ℕ} {call : Call} {calls : List Call} {r f : StepResult}
      → IsStep i call StepStatus.success r
      → IsStep i call StepStatus.failure f
      → Trace i (call ∷ calls) JobStatus.failure (r ∷ f ∷ [])
  next :
      {i : ℕ} {call : Call} {calls : List Call} {status : JobStatus} {r : StepResult}
      {rest : List StepResult}
      → IsStep i call StepStatus.success r
      → Trace (suc i) calls status rest
      → Trace i (call ∷ calls) status (r ∷ rest)

-- The kind of an outcome is the status of its result.
abbrev pub IsFair : Outcome → Type 0
IsFair (success r committed) = r.status ≡ JobStatus.success
IsFair (failure r) = r.status ≡ JobStatus.failure

-- A result whose step results go on from `before`.
pub record GoesOn (job : Job) (index : ℕ) (calls : List Call) (before : List StepResult)
    (o : Outcome) : Type 0 where
  pub fair : IsFair o
  pub of_job : (job_result o).job ≡ job
  pub on_chain : (job_result o).chain_id ≡ job.destination_chain_id
  pub trace : List StepResult
  pub traced : Trace index calls (job_result o).status trace
  pub extends_ : (job_result o).step_results ≡ before ++ trace

GoesOn-next :
    {job : Job} {i : ℕ} {call : Call} {calls : List Call} {before : List StepResult}
    {r : StepResult} (o : Outcome)
    → IsStep i call StepStatus.success r
    → GoesOn job (suc i) calls (before ++ r ∷ []) o
    → GoesOn job i (call ∷ calls) before o
GoesOn-next {before} {r} o step g = record {
  fair = g.fair;
  of_job = g.of_job;
  on_chain = g.on_chain;
  trace = r ∷ g.trace;
  traced = next step g.traced;
  extends_ = g.extends_ ∙ append_assoc before (r ∷ []) g.trace;
}

module _ {S : Type 0} (env : Env S) (job : Job) (block_number : ℕ) (balances : List String)
    (execution : PreparedExecution S) where
  abbrev a_step : ℕ → Call → StepStatus → Option Simulation → StepResult
  a_step index call status sim = step env job block_number balances index call status sim none

  -- A step that ends the job.
  GoesOn-stopped :
      (index : ℕ) (call : Call) (calls : List Call) (before : List StepResult) (r : StepResult)
      (why : JobError)
      → IsStep index call StepStatus.failure r
      → GoesOn job index
          (call ∷ calls)
          before
          (failure (failed_result env job block_number balances (before ++ r ∷ []) why))
  GoesOn-stopped index call calls before r why h = record {
    fair = refl;
    of_job = refl;
    on_chain = refl;
    trace = r ∷ [];
    traced = stopped h;
    extends_ = refl;
  }

  GoesOn-lost :
      (index : ℕ) (call : Call) (calls : List Call) (before : List StepResult) (r f : StepResult)
      (why : JobError)
      → IsStep index call StepStatus.success r
      → IsStep index call StepStatus.failure f
      → GoesOn job index
          (call ∷ calls)
          before
          (failure (failed_result env job block_number balances ((before ++ r ∷ []) ++ f ∷ []) why))
  GoesOn-lost index call calls before r f why h k = record {
    fair = refl;
    of_job = refl;
    on_chain = refl;
    trace = r ∷ f ∷ [];
    traced = lost h k;
    extends_ = append_assoc before (r ∷ []) (f ∷ []);
  }

  pub run_steps-GoesOn :
      (index : ℕ) (working : Option StateObjects) (accumulated : Option Simulation)
      (before : List StepResult) (calls : List Call) (s t : S) (o : Outcome)
      → run_steps env job block_number balances execution index working accumulated before calls s
        ≡ (ok o, t)
      → GoesOn job index calls before o
  unfolding run_steps
  run_steps-GoesOn index working accumulated before [] s t o h =
      let (committed, found, done) =
        continue-eq-ok (finalize_state env job block_number balances execution working)
          (λ c.
            pure (success (succeeded_result env job block_number balances before accumulated) c))
          s h in
      subst (λ o. GoesOn job index [] before o) (pure-injective done)
        (record {
          fair = refl;
          of_job = refl;
          on_chain = refl;
          trace = [];
          traced = finished;
          extends_ = sym (append-nil before);
        })
  run_steps-GoesOn index working accumulated before (call ∷ calls) s t o h =
      elim (Result-cases
        (simulate_destination_call env job block_number balances execution call working s).0) [
          | inr (e, thrown) ↦
              subst (λ o. GoesOn job index (call ∷ calls) before o)
                (pure-injective (rw (thrown, caught) at h))
                (GoesOn-stopped index call calls before _ _ here)
          | inl (sim, simulated) ↦
              let s' =
                (simulate_destination_call env job block_number balances execution call working
                  s).1 in
              elim (Bool-cases sim.status) [
                | inr bad ↦
                    subst (λ o. GoesOn job index (call ∷ calls) before o)
                      (pure-injective (simp (simulated, bad, caught) at h))
                      (GoesOn-stopped index call calls before _ _ here)
                | inl good ↦
                    elim (Result-cases
                      (commit_step env job block_number balances execution working sim s').0) [
                        | inr (e, thrown) ↦
                            subst (λ o. GoesOn job index (call ∷ calls) before o)
                              (pure-injective
                                (rw (thrown, caught) at (simp (simulated, good, caught) at h)))
                              (GoesOn-lost index call calls before _ _ _ here here)
                        | inl (next', committed) ↦ GoesOn-next o here (
                            run_steps-GoesOn (suc index) next' (some sim)
                              (before ++ a_step index call StepStatus.success (some sim) ∷ []) calls
                              (commit_step env job block_number balances execution working sim s').1
                              t o (rw (committed, caught) at (simp (simulated, good, caught) at h)))
                      ]
              ]
        ]
    where
      here :
          {call : Call} {status : StepStatus} {sim : Option Simulation} {error : Option JobError}
          → IsStep index call status
              (step env job block_number balances index call status sim error)
      here = record { at_index = refl; of_call = refl; with_status = refl }
