-- ===== src/CheckRunner/Laws.antt =====
-- What a run of the checks reports, and when it ends.
use governance_seatbelt.Prelude.{
  ℕ, Option, none, some, List, [], ◌∷◌, false, ◌+◌, ◌-◌, min, leb, ◌==◌, nat_eq, string_eq, ◌≡◌,
  refl, ◌≤◌, ◌<◌, arith, Bool-cases, inl, inr, map, sym, ap, Option-cases, All, append-nil, subst,
  eq_iff,
}
use governance_seatbelt.Dict.{lookup}
use governance_seatbelt.Dedupe.Laws.{IsDeduped}
use governance_seatbelt.Checks.{CheckResult, NamedResult, AllCheckResults}
use governance_seatbelt.CheckRunner.{
  TimeoutConfig, Check, Machine, Settled, put_result, skip_all, configured_timeout_ms, run_from,
  run_checks_with_timeouts, run_check_safely, timeout_skip_result, timed_out_reason, global_reason,
}
use governance_seatbelt.CheckRunner.Reports.{
  AreNew, AreNew-tail, Adds, Adds-over, Adds-cut, Adds-next, pair-eq, IsSkipped,
  run_check_safely-IsAnswer, timeout_skip_result-IsSkipped, IsReportOf, Reported, answered,
  timed_out, done,
}

cap_le : (own cap : ℕ) → min own cap ≡ cap → cap ≤ own
cap_le own cap h = omega (arith, h)

min_own : (own cap : ℕ) → (min own cap == cap) ≡ false → min own cap ≡ own
min_own own cap h = ground arith

own_lt : (own cap : ℕ) → (min own cap == cap) ≡ false → own < cap
own_lt own cap h = ground arith

-- Induction over a run: a property of the results so far, the checks to come and the state that the
-- end has and that every step hands back.
module _ {S : Type 0} (machine : Machine S) (config : TimeoutConfig) (deadline : ℕ)
    (P : AllCheckResults → List Check → S → AllCheckResults × S → Type 0)
    (ended : (results : AllCheckResults) (s : S) → P results [] s (results, s))
    (stopped : (results : AllCheckResults) (check : Check) (checks : List Check) (s : S)
      → deadline ≤ machine.clock s
      → P results (check ∷ checks) s (skip_all (global_reason config) results (check ∷ checks), s))
    (is_cut : (results : AllCheckResults) (check : Check) (checks : List Check) (s s' : S)
      → machine.clock s < deadline
      → deadline - machine.clock s ≤ configured_timeout_ms config check
      → machine.race check (deadline - machine.clock s) s ≡ (none, s')
      → P results (check ∷ checks) s (
        skip_all
            (global_reason config)
            (put_result check
              (timeout_skip_result
                (timed_out_reason (deadline - machine.clock s) "global checks timeout"))
              results)
            checks,
        s',
      ))
    (go_on : (results : AllCheckResults) (check : Check) (checks : List Check) (s s' : S)
      → machine.clock s < deadline
      → (result : CheckResult) → IsReportOf machine config deadline check s s' result
      → (out : AllCheckResults × S) → P (put_result check result results) checks s' out
      → P results (check ∷ checks) s out) where
  run_from-induction :
      (results : AllCheckResults) (checks : List Check) (s : S)
      → P results checks s (run_from machine config deadline results checks s)
  unfolding run_from
  run_from-induction results [] s = ended results s
  run_from-induction results (check ∷ checks) s =
      elim (Bool-cases (leb deadline (machine.clock s))) [
        | inl late ↦ rw (late, run_from) (stopped results check checks s (ground arith))
        | inr before ↦
            let ms = min (configured_timeout_ms config check) (deadline - machine.clock s) in
            let s' = (machine.race check ms s).1 in
            elim (Option-cases (machine.race check ms s).0) [
              | inr (answer, settled) ↦
                  rw (before, settled, run_from)
                    (go_on results check checks s s' (ground arith) (run_check_safely check answer)
                      (answered answer (pair-eq settled) (run_check_safely-IsAnswer check answer)) _
                      (run_from-induction (put_result check (run_check_safely check answer) results)
                        checks s'))
              | inl silent ↦ elim (Bool-cases (ms == (deadline - machine.clock s))) [
                | inl last ↦
                    let same = (eq_iff ms (deadline - machine.clock s)).0 last in
                    rw (before, silent, last, run_from)
                      (subst
                        (λ t. P results (check ∷ checks) s (
                          skip_all (global_reason config)
                              (put_result check
                                (timeout_skip_result (timed_out_reason t "global checks timeout"))
                                results)
                              checks,
                          s',
                        ))
                        (sym same)
                        (is_cut results check checks s s' (ground arith)
                          (cap_le (configured_timeout_ms config check) _ same)
                          (subst (λ t. machine.race check t s ≡ (none, s')) same (pair-eq silent))))
                | inr own ↦
                    let result = timeout_skip_result (timed_out_reason ms "per-check timeout") in
                    let same = min_own (configured_timeout_ms config check) _ own in
                    rw (before, silent, own, run_from)
                      (go_on results check checks s s' (ground arith) result
                        (timed_out (own_lt (configured_timeout_ms config check) _ own)
                          (subst (λ t. machine.race check t s ≡ (none, s')) same (pair-eq silent))
                          (subst (λ t. IsSkipped (timed_out_reason t "per-check timeout") result)
                            same
                            (timeout_skip_result-IsSkipped
                              (timed_out_reason ms "per-check timeout"))))
                        _ (run_from-induction (put_result check result results) checks s'))
              ]
            ]
      ]

-- A timer of some milliseconds ends a race at the latest when it is due.
pub record IsPunctual {S : Type 0} (machine : Machine S) : Type 0 where
  pub in_time :
      (check : Check) (ms : ℕ) (s : S)
      → machine.clock (machine.race check ms s).1 ≤ machine.clock s + ms

module _ {S : Type 0} (machine : Machine S) (punctual : IsPunctual machine) (config : TimeoutConfig)
    (deadline : ℕ) where
  race-in_time :
      (check : Check) (ms : ℕ) (s s' : S) (o : Option Settled)
      → machine.clock s < deadline
      → ms ≤ deadline - machine.clock s
      → machine.race check ms s ≡ (o, s')
      → machine.clock s' ≤ deadline
  race-in_time check ms s s' o before small race =
      subst (λ t. machine.clock t ≤ deadline) (ap (λ p. p.1) race)
        (omega (arith, punctual.in_time check ms s, before, small))

  IsReportOf-in_time :
      (check : Check) (s s' : S) (r : CheckResult)
      → machine.clock s < deadline
      → IsReportOf machine config deadline check s s' r
      → machine.clock s' ≤ deadline
  IsReportOf-in_time check s s' r before (answered answer race is) =
      race-in_time check _ s s' (some answer) before (omega arith) race
  IsReportOf-in_time check s s' r before (timed_out short race is) =
      race-in_time check _ s s' none before (omega (arith, short)) race

-- On a machine whose timers are punctual, the run ends by the global deadline, however long the checks
-- would take and whatever their own timeouts are.
pub run_checks_with_timeouts-in_time :
    {S : Type 0} (machine : Machine S)
    → IsPunctual machine
    → (config : TimeoutConfig) (checks : List Check) (s : S)
    → machine.clock (run_checks_with_timeouts machine config checks s).1
      ≤ machine.clock s + config.global_timeout_ms
unfolding run_checks_with_timeouts
run_checks_with_timeouts-in_time machine punctual config checks s =
    let deadline = machine.clock s + config.global_timeout_ms in
    run_from-induction machine config deadline
      (λ results checks s' out.
        machine.clock s' ≤ machine.clock s + config.global_timeout_ms
        → machine.clock out.1 ≤ machine.clock s + config.global_timeout_ms)
      (λ results s' h. h) (λ results check checks s' late h. h)
      (λ results check checks s' s'' before longer race h.
        race-in_time machine punctual config deadline check _ s' s'' none before (omega arith) race)
      (λ results check checks s' s'' before result report out rest h.
        rest
          (IsReportOf-in_time machine punctual config deadline check s' s'' result before report))
      [] checks s (omega arith)

-- For checks with distinct ids, whatever the machine does, the run reports every check exactly once,
-- in the order of the checks and under its id and name, and the checks run one after the other, each
-- within its own time and what is left of the time for all: a check that settles is reported by the
-- result that it returned, or by an error that names the check and what it threw; one whose own time is
-- over first is skipped with its time as the reason; and when the time for all is over, the check
-- that runs is skipped for that, and no further check is started, but all are reported as skipped.
pub run_checks_with_timeouts-Reported :
    {S : Type 0} (machine : Machine S) (config : TimeoutConfig) (checks : List Check) (s : S)
    → IsDeduped (map (λ c. c.id) checks)
    → Reported machine config
        (machine.clock s + config.global_timeout_ms)
        s
        checks
        (run_checks_with_timeouts machine config checks s).0
        (run_checks_with_timeouts machine config checks s).1
unfolding run_checks_with_timeouts
run_checks_with_timeouts-Reported {S} machine config checks s distinct =
    let deadline = machine.clock s + config.global_timeout_ms in
    let a =
      run_from-induction machine config deadline
        (λ results checks s' out.
          AreNew results checks → Adds machine config deadline results checks s' out)
        (λ results s' new. record {
          added = [];
          after = sym (append-nil results);
          reported = done s';
        })
        (Adds-over machine config deadline) (Adds-cut machine config deadline)
        (λ results check checks s' s'' before result report out rest new.
          Adds-next machine config deadline results check checks s' s'' before result report out new
            (rest (AreNew-tail results check result checks new)))
        [] checks s (distinct, none_known checks) in
    subst
      (λ added.
        Reported machine config deadline s checks added
          (run_from machine config deadline [] checks s).1)
      (sym a.after) a.reported
  where
    none_known : (checks : List Check) → All (λ c. lookup {V = NamedResult} c.id [] ≡ none) checks
    none_known [] = tt
    none_known (c ∷ checks) = (unfold lookup in refl, none_known checks)
