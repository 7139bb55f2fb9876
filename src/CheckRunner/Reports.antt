-- ===== src/CheckRunner/Reports.antt =====
-- How a run of the checks reports each of them.
use governance_seatbelt.Prelude.{
  ℕ, String, none, some, List, [], ◌∷◌, ◌++◌, false, ◌-◌, min, nat_eq, string_eq, ◌≡◌, refl, ◌≤◌,
  ◌<◌, arith, map, ◌∙◌, sym, ap, All, append_assoc, append-nil, eq_iff,
}
use governance_seatbelt.Dict.{lookup, put}
use governance_seatbelt.Dict.Laws.{lookup-put}
use governance_seatbelt.Dedupe.{has}
use governance_seatbelt.Dedupe.Laws.{IsDeduped}
use governance_seatbelt.Checks.{CheckResult, NamedResult, AllCheckResults}
use governance_seatbelt.Text.{concat}
use governance_seatbelt.CheckRunner.{
  TimeoutConfig, Check, Machine, Settled, returned, rejected, put_result, skip_all,
  configured_timeout_ms, run_check_safely, timeout_skip_result, timed_out_reason, global_reason,
}

-- The result of a check that was skipped for some reason.
pub record IsSkipped (reason : String) (r : CheckResult) : Type 0 where
  pub skipped : r.skipped ≡ some reason
  pub silent : (r.info ≡ []) × (r.warnings ≡ []) × (r.errors ≡ [])

-- The result of a check that threw a message: an error that names the check, its id and the message.
pub record IsErrorOf (check : Check) (message : String) (r : CheckResult) : Type 0 where
  pub error :
      r.errors
      ≡ concat "Unhandled exception in "
          (concat check.name (concat " (" (concat check.id (concat "): " message))))
        ∷ []
  pub not_skipped : r.skipped ≡ none
  pub silent : (r.info ≡ []) × (r.warnings ≡ [])

-- What the result of a check is by how the check settled within its time.
abbrev pub IsAnswer : Check → Settled → CheckResult → Type 0
IsAnswer check (returned result) r = r ≡ result
IsAnswer check (rejected message) r = IsErrorOf check message r

pub run_check_safely-IsAnswer :
    (check : Check) (answer : Settled) → IsAnswer check answer (run_check_safely check answer)
unfolding run_check_safely
run_check_safely-IsAnswer check (returned result) = refl
run_check_safely-IsAnswer check (rejected message) = record {
  error = refl;
  not_skipped = refl;
  silent = (refl, refl);
}

pub timeout_skip_result-IsSkipped :
    (reason : String) → IsSkipped reason (timeout_skip_result reason)
timeout_skip_result-IsSkipped reason = record { skipped = refl; silent = (refl, refl, refl) }

module _ {S : Type 0} (machine : Machine S) (config : TimeoutConfig) (deadline : ℕ) where
  -- How one check that is started in some state is reported before the next one is: it settled within
  -- its own time and what is left of the time for all, with this result; or its own time, the shorter
  -- one, was over first. And the state after it.
  pub data IsReportOf (check : Check) (s s' : S) (r : CheckResult) : Type 0 where
    answered :
        (answer : Settled)
        → machine.race check
            (min (configured_timeout_ms config check) (deadline - machine.clock s))
            s
          ≡ (some answer, s')
        → IsAnswer check answer r
        → IsReportOf check s s' r
    timed_out :
        configured_timeout_ms config check < deadline - machine.clock s
        → machine.race check (configured_timeout_ms config check) s ≡ (none, s')
        → IsSkipped (timed_out_reason (configured_timeout_ms config check) "per-check timeout") r
        → IsReportOf check s s' r

  -- All skipped for the time of all the checks.
  abbrev pub AreSkipped : List Check → AllCheckResults → Type 0
  AreSkipped [] [] = Unit
  AreSkipped (check ∷ checks) ((id, r) ∷ results) =
      (id ≡ check.id)
      × (r.name ≡ check.name)
      × IsSkipped (global_reason config) r.result
      × AreSkipped checks results
  AreSkipped _ _ = ⊥

  -- The results of checks from some state to another, in their order and under their ids and names.
  pub data Reported : S → List Check → AllCheckResults → S → Type 0 where
    done : (s : S) → Reported s [] [] s
    -- the time for all is over, and no further check is started
    over :
        (s : S) (checks : List Check) (results : AllCheckResults)
        → deadline ≤ machine.clock s
        → AreSkipped checks results
        → Reported s checks results s
    -- it ends while a check runs
    cut :
        (s : S) (check : Check) (checks : List Check) (r : CheckResult) (results : AllCheckResults)
        (s' : S)
        → machine.clock s < deadline
        → deadline - machine.clock s ≤ configured_timeout_ms config check
        → machine.race check (deadline - machine.clock s) s ≡ (none, s')
        → IsSkipped (timed_out_reason (deadline - machine.clock s) "global checks timeout") r
        → AreSkipped checks results
        → Reported s
            (check ∷ checks)
            ((check.id, record { name = check.name; result = r }) ∷ results)
            s'
    next :
        (s : S) (check : Check) (checks : List Check) (r : CheckResult) (results : AllCheckResults)
        (s' end_ : S)
        → machine.clock s < deadline
        → IsReportOf check s s' r
        → Reported s' checks results end_
        → Reported s
            (check ∷ checks)
            ((check.id, record { name = check.name; result = r }) ∷ results)
            end_

-- The checks' ids differ from each other and from those that have results.
abbrev pub AreNew : AllCheckResults → List Check → Type 0
AreNew results checks =
    IsDeduped (map (λ c. c.id) checks) × All (λ c. lookup c.id results ≡ none) checks

put_new :
    (id : String) (r : NamedResult) (results : AllCheckResults)
    → lookup id results ≡ none
    → put id r results ≡ results ++ (id, r) ∷ []
unfolding put lookup
put_new id r [] h = refl
put_new id r ((k, q) ∷ results) h = ground (arith, put_new id r results)

still_new :
    (results : AllCheckResults) (check : Check) (result : CheckResult) (checks : List Check)
    → has check.id (map (λ c. c.id) checks) ≡ false
    → All (λ c. lookup c.id results ≡ none) checks
    → All (λ c. lookup c.id (put_result check result results) ≡ none) checks
still_new results check result [] n new = tt
still_new results check result (c ∷ checks) n (f, fs) = (
  lookup-put check.id c.id (record { name = check.name; result = result }) results
      ∙ ground (arith, eq_iff check.id c.id, eq_iff c.id check.id),
  still_new results check result checks (ground arith) fs,
)

pub AreNew-tail :
    (results : AllCheckResults) (check : Check) (result : CheckResult) (checks : List Check)
    → AreNew results (check ∷ checks)
    → AreNew (put_result check result results) checks
AreNew-tail results check result checks ((n, d), (f, fs)) =
    (d, still_new results check result checks n fs)

put-append :
    (results : AllCheckResults) (check : Check) (checks : List Check) (result : CheckResult)
    (added : AllCheckResults)
    → AreNew results (check ∷ checks)
    → put_result check result results ++ added
      ≡ results ++ (check.id, record { name = check.name; result = result }) ∷ added
put-append results check checks result added (_, (new, _)) =
    ap (λ r. r ++ added) (put_new check.id _ results new)
    ∙ append_assoc results ((check.id, record { name = check.name; result = result }) ∷ []) added

pub pair-eq : {A B : Type 0} {p : A × B} {a : A} → p.0 ≡ a → p ≡ (a, p.1)
pair-eq {p} h = ap (λ x. (x, p.1)) h

module _ {S : Type 0} (machine : Machine S) (config : TimeoutConfig) (deadline : ℕ) where
  -- Skipping adds a skipped result for each check.
  skip_all-AreSkipped :
      (results : AllCheckResults) (checks : List Check)
      → AreNew results checks
      → (added : AllCheckResults) × (skip_all (global_reason config) results checks
          ≡ results ++ added)
        × AreSkipped machine config deadline checks added
  unfolding skip_all
  skip_all-AreSkipped results [] new = ([], sym (append-nil results), tt)
  skip_all-AreSkipped results (check ∷ checks) new =
      let skipped = timeout_skip_result (global_reason config) in
      let (added, after, are_skipped) =
        skip_all-AreSkipped (put_result check skipped results) checks
          (AreNew-tail results check skipped checks new) in
      (
        (check.id, record { name = check.name; result = skipped }) ∷ added,
        after ∙ put-append results check checks skipped added new,
        (refl, refl, timeout_skip_result-IsSkipped (global_reason config), are_skipped),
      )

  -- What a run adds to the results before it.
  pub record Adds (results : AllCheckResults) (checks : List Check) (s : S)
      (out : AllCheckResults × S) : Type 0 where
    pub added : AllCheckResults
    pub after : out.0 ≡ results ++ added
    pub reported : Reported machine config deadline s checks added out.1

  pub Adds-over :
      (results : AllCheckResults) (check : Check) (checks : List Check) (s : S)
      → deadline ≤ machine.clock s
      → AreNew results (check ∷ checks)
      → Adds results
          (check ∷ checks)
          s
          (skip_all (global_reason config) results (check ∷ checks), s)
  Adds-over results check checks s late new =
      let (added, after, are_skipped) = skip_all-AreSkipped results (check ∷ checks) new in
      record { added = added; after = after; reported = over s _ added late are_skipped }

  pub Adds-cut :
      (results : AllCheckResults) (check : Check) (checks : List Check) (s s' : S)
      → machine.clock s < deadline
      → deadline - machine.clock s ≤ configured_timeout_ms config check
      → machine.race check (deadline - machine.clock s) s ≡ (none, s')
      → AreNew results (check ∷ checks)
      → Adds results (check ∷ checks) s (
        skip_all
            (global_reason config)
            (put_result check
              (timeout_skip_result
                (timed_out_reason (deadline - machine.clock s) "global checks timeout"))
              results)
            checks,
        s',
      )
  Adds-cut results check checks s s' before longer race new =
      let reason = timed_out_reason (deadline - machine.clock s) "global checks timeout" in
      let skipped = timeout_skip_result reason in
      let (added, after, are_skipped) =
        skip_all-AreSkipped (put_result check skipped results) checks
          (AreNew-tail results check skipped checks new) in
      record {
        added = (check.id, record { name = check.name; result = skipped }) ∷ added;
        after = after ∙ put-append results check checks skipped added new;
        reported =
            cut s check checks skipped added s' before longer race
              (timeout_skip_result-IsSkipped reason) are_skipped;
      }

  pub Adds-next :
      (results : AllCheckResults) (check : Check) (checks : List Check) (s s' : S)
      → machine.clock s < deadline
      → (result : CheckResult) → IsReportOf machine config deadline check s s' result
      → (out : AllCheckResults × S) → AreNew results (check ∷ checks)
      → Adds (put_result check result results) checks s' out
      → Adds results (check ∷ checks) s out
  Adds-next results check checks s s' before result report out new rest = record {
    added = (check.id, record { name = check.name; result = result }) ∷ rest.added;
    after = rest.after ∙ put-append results check checks result rest.added new;
    reported = next s check checks result rest.added s' out.1 before report rest.reported;
  }
