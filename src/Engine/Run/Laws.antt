-- ===== src/Engine/Run/Laws.antt =====
-- What a run of a proposal's destination jobs reports, and which chain states it changes.
use governance_seatbelt.Prelude.{
  Result, String, length, arith, ◌≢◌, ◌||◌, if◌then◌else◌, not, ℕ, none, some, List, [], ◌∷◌, ◌++◌,
  Bool, true, false, ok, ◌≡◌, refl, sym, ◌∙◌, ap, subst, Bool-cases, inl, inr, ◌⊎◌, append_assoc,
  append-nil, false≢true, not, if◌then◌else◌, All, map, nat_eq, ◌==◌, eq_iff, any,
}
use governance_seatbelt.Dict.{lookup, put}
use governance_seatbelt.Dict.Laws.{lookup-put}
use governance_seatbelt.Chains.{supports_l2_checks}
use governance_seatbelt.CrossChain.{
  Job, JobResult, JobStatus, unsupported_chain, block_lookup_failed, is_success, is_failure,
}
use governance_seatbelt.Exec.{
  Exec, pure, lift, caught, ◌>>=◌, continue-eq-ok, Result-cases, pure-injective,
}
use governance_seatbelt.Engine.Env.{Env}
use governance_seatbelt.Engine.Job.{Outcome, success, failure, job_result, execute_destination_job}
use governance_seatbelt.Engine.Job.Laws.{IsFair}
use governance_seatbelt.Engine.Job.Account.{execute_destination_job-IsAccountOf}
use governance_seatbelt.Engine.Run.{
  Source, Handled, StatesByChain, initialize_committed_state_by_chain, run_extracted, unchanged,
  has_no_calls, extract_destination_jobs, handle_cross_chain_simulations, unrun_result,
  commit_outcome, run_job_at, find_block_cached, run_jobs,
}

-- The results of jobs, and the states before and after them.
pub record IsReport (states : StatesByChain) (jobs : List Job) (results : List JobResult)
    (after : StatesByChain) : Type 0 where
  -- one result for each job, in their order
  pub of_jobs : map (λ r. r.job) results ≡ jobs
  pub on_chains : map (λ r. r.chain_id) results ≡ map (λ job. job.destination_chain_id) jobs
  -- a chain on which no job succeeded has the state that it had
  pub kept :
      (c : ℕ)
      → All (λ r. r.chain_id ≡ c → is_success r.status ≡ false) results
      → lookup c after ≡ lookup c states

IsReport-cons :
    {states middle after : StatesByChain} {job : Job} {jobs : List Job} (r : JobResult)
    {results : List JobResult}
    → r.job ≡ job
    → r.chain_id ≡ job.destination_chain_id
    → ((c : ℕ) → (r.chain_id ≡ c → is_success r.status ≡ false) → lookup c middle ≡ lookup c states)
    → IsReport middle jobs results after
    → IsReport states (job ∷ jobs) (r ∷ results) after
IsReport-cons r same_job same_chain keeps rest = record {
  of_jobs = cc (same_job, rest.of_jobs);
  on_chains = cc (same_chain, rest.on_chains);
  kept = λ c h. rest.kept c h.1 ∙ keeps c h.0;
}

commit_outcome-kept :
    (o : Outcome) (states : StatesByChain)
    → IsFair o
    → (c : ℕ) → ((job_result o).chain_id ≡ c → is_success (job_result o).status ≡ false)
    → lookup c (commit_outcome (job_result o).chain_id o states) ≡ lookup c states
unfolding commit_outcome
commit_outcome-kept (failure r) states fair c h = refl
commit_outcome-kept (success r none) states fair c h = refl
commit_outcome-kept (success r (some committed)) states fair c h =
    lookup-put r.chain_id c committed states ∙ elim (Bool-cases (r.chain_id == c)) [
      | inl same ↦ absurd (false≢true (sym (h ((eq_iff r.chain_id c).0 same)) ∙ ap is_success fair))
      | inr other ↦ rw other
    ]

-- What the loop adds to the results before it.
record GoesOn (states : StatesByChain) (before : List JobResult) (jobs : List Job)
    (out : List JobResult × StatesByChain) : Type 0 where
  added : List JobResult
  extends_ : out.0 ≡ before ++ added
  report : IsReport states jobs added out.1

GoesOn-cons :
    {states middle : StatesByChain} {job : Job} {jobs : List Job} {before : List JobResult}
    (r : JobResult) {out : List JobResult × StatesByChain}
    → r.job ≡ job
    → r.chain_id ≡ job.destination_chain_id
    → ((c : ℕ) → (r.chain_id ≡ c → is_success r.status ≡ false) → lookup c middle ≡ lookup c states)
    → GoesOn middle (before ++ r ∷ []) jobs out
    → GoesOn states before (job ∷ jobs) out
GoesOn-cons {before} r same_job same_chain keeps g = record {
  added = r ∷ g.added;
  extends_ = g.extends_ ∙ append_assoc before (r ∷ []) g.added;
  report = IsReport-cons r same_job same_chain keeps g.report;
}

pair-eq : {A B : Type 0} {p : A × B} {a : A} → p.0 ≡ a → p ≡ (a, p.1)
pair-eq {p} h = ap (λ x. (x, p.1)) h

guarded_cases :
    {S A : Type 0} (b c : Bool) (u m : Exec S A) (s : S) {p : Result A × S}
    → (if not b || c then u else m) s ≡ p
    → ((b ≡ false) × (u s ≡ p))
      ⊎ (((c ≡ true) × (u s ≡ p)) ⊎ ((b ≡ true) × (c ≡ false) × (m s ≡ p)))
guarded_cases false c u m s h = inl (refl, h)
guarded_cases true true u m s h = inr (inl (refl, h))
guarded_cases true false u m s h = inr (inr (refl, refl, h))

empty_cases :
    (xs ys : List String) → (length xs == 0 || length ys == 0) ≡ true → (xs ≡ []) ⊎ (ys ≡ [])
empty_cases [] ys h = inl refl
empty_cases (x ∷ xs) [] h = inr refl
empty_cases (x ∷ xs) (y ∷ ys) h = absurd (ground (arith, h))

neither_empty :
    (xs ys : List String) → (length xs == 0 || length ys == 0) ≡ false → (xs ≢ []) × (ys ≢ [])
neither_empty [] ys h = absurd (false≢true (sym h))
neither_empty (x ∷ xs) [] h = absurd (ground (arith, h))
neither_empty (x ∷ xs) (y ∷ ys) h = (λ e. cc, λ e. cc)

module _ {S : Type 0} (env : Env S) (source : Source) where
  run_job_at-IsAccount :
      (job : Job) (block_number : ℕ) (states : StatesByChain) (s : S) (o : Outcome)
      → (run_job_at env source job block_number states s).0 ≡ ok o
      → IsFair o × ((job_result o).job ≡ job) × ((job_result o).chain_id ≡ job.destination_chain_id)
  unfolding run_job_at
  run_job_at-IsAccount job block_number states s o h =
      let (balances, treasury, h') =
        continue-eq-ok (env.treasury_addresses source.governor_address job.destination_chain_id)
          (λ balances.
            execute_destination_job env job block_number balances source.timestamp
              (lookup job.destination_chain_id states))
          s (pair-eq h) in
      let told =
        execute_destination_job-IsAccountOf env job block_number balances source.timestamp
          (lookup job.destination_chain_id states) s _ o h' in
      (told.fair, told.of_job, told.on_chain)

  run_jobs-GoesOn :
      (blocks : List (ℕ × ℕ)) (states : StatesByChain) (before : List JobResult) (jobs : List Job)
      (s t : S) (out : List JobResult × StatesByChain)
      → run_jobs env source blocks states before jobs s ≡ (ok out, t)
      → GoesOn states before jobs out
  unfolding run_jobs
  run_jobs-GoesOn blocks states before [] s t out h =
      subst (GoesOn states before []) (pure-injective h) (record {
        added = [];
        extends_ = sym (append-nil before);
        report = record { of_jobs = refl; on_chains = refl; kept = λ c h. refl };
      })
  run_jobs-GoesOn blocks states before (job ∷ jobs) s t out h =
      elim (Bool-cases (supports_l2_checks job.destination_chain_id)) [
        | inr unsupported ↦
            GoesOn-cons
              (unrun_result job JobStatus.skipped (unsupported_chain job.destination_chain_id)) refl
              refl (λ c _. refl)
              (run_jobs-GoesOn blocks states
                (before
                  ++ unrun_result job JobStatus.skipped (unsupported_chain job.destination_chain_id)
                    ∷ [])
                jobs s t out (rw (unsupported, run_jobs) at h))
        | inl supported ↦
            elim (Result-cases (find_block_cached env source job.destination_chain_id blocks s).0) [
              | inr (e, thrown) ↦
                  GoesOn-cons
                    (unrun_result job JobStatus.failure
                      (block_lookup_failed job.destination_chain_id))
                    refl refl (λ c _. refl)
                    (run_jobs-GoesOn blocks states
                      (before
                        ++ unrun_result job JobStatus.failure
                            (block_lookup_failed job.destination_chain_id)
                          ∷ [])
                      jobs (find_block_cached env source job.destination_chain_id blocks s).1 t out
                      (rw (thrown, caught) at (rw (supported, run_jobs) at h)))
              | inl (block_number, found) ↦
                  let asked = (find_block_cached env source job.destination_chain_id blocks s).1 in
                  let (o, ran, h') =
                    continue-eq-ok (run_job_at env source job block_number states asked).0
                      (λ outcome.
                        run_jobs env source (put job.destination_chain_id block_number blocks)
                          (commit_outcome job.destination_chain_id outcome states)
                          (before ++ job_result outcome ∷ []) jobs)
                      (run_job_at env source job block_number states asked).1
                      (rw (found, caught) at (rw (supported, run_jobs) at h)) in
                  let told = run_job_at-IsAccount job block_number states asked o ran in
                  GoesOn-cons (job_result o) told.1 told.2
                    (λ c h.
                      subst (λ chain. lookup c (commit_outcome chain o states) ≡ lookup c states)
                        told.2 (commit_outcome-kept o states told.0 c h))
                    (run_jobs-GoesOn (put job.destination_chain_id block_number blocks)
                      (commit_outcome job.destination_chain_id o states)
                      (before ++ job_result o ∷ []) jobs
                      (run_job_at env source job block_number states asked).1 t out h')
            ]
      ]

  -- What a run of extracted jobs that returns has set: the jobs' results in their order, on a chain
  -- without a successful job the state from before the run, and the failure flag from the results.
  pub record Ran (jobs : List Job) (out : Handled) : Type 0 where
    pub initial : StatesByChain
    pub initialised : initialize_committed_state_by_chain env source jobs ≡ ok initial
    pub report : IsReport initial jobs out.destination_job_results out.destination_state_by_chain
    pub flagged :
        out.cross_chain_failure ≡ any (λ r. is_failure r.status) out.destination_job_results

  run_extracted-Ran :
      (job : Job) (jobs : List Job) (s t : S) (out : Handled)
      → run_extracted env source (job ∷ jobs) s ≡ (ok out, t)
      → Ran (job ∷ jobs) out
  unfolding run_extracted
  run_extracted-Ran job jobs s t out h =
      let (states, initialised, h') =
        continue-eq-ok (initialize_committed_state_by_chain env source (job ∷ jobs)) _ s h in
      let (r, ran, h'') =
        continue-eq-ok (run_jobs env source [] states [] (job ∷ jobs) s).0 _
          (run_jobs env source [] states [] (job ∷ jobs) s).1 h' in
      let g = run_jobs-GoesOn [] states [] (job ∷ jobs) s _ r (pair-eq ran) in
      subst (Ran (job ∷ jobs)) (pure-injective h'') (record {
        initial = states;
        initialised = initialised;
        report = subst (λ l. IsReport states (job ∷ jobs) l r.1) (sym g.extends_) g.report;
        flagged = refl;
      })

  -- The ends of a run that returns.
  pub data IsHandled (out : Handled) : Type 0 where
    idle :
        (source.status ≡ false)
          ⊎ (((source.context.targets ≡ []) ⊎ (source.context.calldatas ≡ []))
              ⊎ (extract_destination_jobs source.context env.adapters ≡ ok []))
        → out ≡ unchanged env source
        → IsHandled out
    ran :
        source.status ≡ true
        → source.context.targets ≢ []
        → source.context.calldatas ≢ []
        → (job : Job) (jobs : List Job)
        → extract_destination_jobs source.context env.adapters ≡ ok (job ∷ jobs)
        → Ran (job ∷ jobs) out
        → IsHandled out

  run_extracted-IsHandled :
      source.status ≡ true
      → source.context.targets ≢ []
      → source.context.calldatas ≢ []
      → (jobs : List Job) → extract_destination_jobs source.context env.adapters ≡ ok jobs
      → (s t : S) (out : Handled) → run_extracted env source jobs s ≡ (ok out, t)
      → IsHandled out
  unfolding run_extracted
  run_extracted-IsHandled succeeded some_targets some_calldatas [] extracted s t out h =
      idle (inr (inr extracted)) (sym (pure-injective h))
  run_extracted-IsHandled succeeded some_targets some_calldatas (job ∷ jobs) extracted s t out h =
      ran succeeded some_targets some_calldatas job jobs extracted
        (run_extracted-Ran job jobs s t out h)

  -- Whenever the handler returns, either the source simulation failed, the proposal calls nothing or no
  -- job was extracted, and the three fields are as they were; or the source simulation succeeded, the
  -- proposal has calls, and the extracted jobs, of which there is one at least, were run: each has exactly one result, in the order of the jobs and on the job's
  -- chain; a chain on which no job succeeded keeps the state that it was initialised with; and the
  -- proposal is marked as failed across chains exactly if some result is a failure.
  pub handle_cross_chain_simulations-IsHandled :
      (s t : S) (out : Handled)
      → handle_cross_chain_simulations env source s ≡ (ok out, t)
      → IsHandled out
  unfolding handle_cross_chain_simulations
  handle_cross_chain_simulations-IsHandled s t out h =
      elim (guarded_cases source.status (has_no_calls env source) (pure (unchanged env source))
        (lift (extract_destination_jobs source.context env.adapters) >>= run_extracted env source) s
        h) [
          | inl (failed, h') ↦ idle (inl failed) (sym (pure-injective h'))
          | inr (inl (none_called, h')) ↦
              idle
                (inr
                  (inl (empty_cases source.context.targets source.context.calldatas none_called)))
                (sym (pure-injective h'))
          | inr (inr (succeeded, called, h')) ↦
              let (some_targets, some_calldatas) =
                neither_empty source.context.targets source.context.calldatas called in
              let (jobs, extracted, h'') =
                continue-eq-ok (extract_destination_jobs source.context env.adapters)
                  (run_extracted env source) s h' in
              run_extracted-IsHandled succeeded some_targets some_calldatas jobs extracted s t out
                h''
        ]
