-- ===== src/Derived/Gate/Laws.antt =====
-- The gate is fail-closed: it passes exactly when everything was run and nothing failed.
use governance_seatbelt.Prelude.{
  ℕ, some, List, [], ◌∷◌, Bool, true, false, any, nat_eq, string_eq, ◌≡◌, refl, ◌↔◌, ◌⊎◌, inl, inr,
  All, Bool-cases, subst, sym, Option-cases,
}
use mathlib.Core.Option.{some-injective}
use governance_seatbelt.Dict.{Dict, lookup, values}
use governance_seatbelt.Chains.{supports_l2_checks}
use governance_seatbelt.Checks.{AllCheckResults}
use governance_seatbelt.CrossChain.{JobResult}
use governance_seatbelt.Derived.Gate.{
  source_failed, cross_chain_failed, DependencyOutcome, destination_inconclusive,
  source_inconclusive, passed, failed, Reason, check_failed, group_by_chain, not_validated,
  checks_outcome, evaluate_destinations, evaluate_dependency_outcome, PredecessorResult,
}
use governance_seatbelt.Derived.Gate.Summaries.{
  AreHealthy, AreNamed, HasErrors, Verdict, healthy, erring, idle, not_both, checks_outcome-Verdict,
}
use governance_seatbelt.Derived.Gate.Groups.{IsGroupValid, IsResultValid, All-group_by_chain}

-- What a chain of the destination results needs for the gate to pass.
abbrev pub IsChainChecked : Dict ℕ AllCheckResults → ℕ → Type 0
IsChainChecked destination_checks chain_id =
    (supports_l2_checks chain_id ≡ true)
    × (checks : AllCheckResults) × (lookup chain_id destination_checks ≡ some checks)
    × AreHealthy (values checks)

-- Every check has a name, as the checks of the source do.
abbrev pub AllNamed : Dict ℕ AllCheckResults → Type 0
AllNamed destination_checks =
    (chain_id : ℕ) (checks : AllCheckResults)
    → lookup chain_id destination_checks ≡ some checks
    → AreNamed (values checks)

-- `checks_outcome` passes exactly on healthy checks with what comes after passing.
checks_outcome-eq-passed_iff :
    (r : Reason) (go_on : DependencyOutcome) (checks : AllCheckResults)
    → AreNamed (values checks)
    → (checks_outcome r go_on checks ≡ passed) ↔ (AreHealthy (values checks) × (go_on ≡ passed))
checks_outcome-eq-passed_iff r go_on checks named =
    from_verdict (checks_outcome-Verdict r go_on checks named)
  where
    from_verdict :
        {o : DependencyOutcome}
        → Verdict r go_on checks o
        → (o ≡ passed) ↔ (AreHealthy (values checks) × (go_on ≡ passed))
    from_verdict (healthy h) = (λ e. (h, e), λ p. p.1)
    from_verdict (erring e n) = (λ q. cc, λ p. absurd (not_both (values checks) p.0.clean e))
    from_verdict (idle e n) = (λ q. cc, λ p. absurd (n p.0))

module _ (destination_checks : Dict ℕ AllCheckResults) (named : AllNamed destination_checks) where
  evaluate_destinations-eq-passed_iff :
      (groups : Dict ℕ (List JobResult))
      → (evaluate_destinations destination_checks groups ≡ passed)
        ↔ All (IsGroupValid (IsChainChecked destination_checks)) groups
  unfolding evaluate_destinations
  evaluate_destinations-eq-passed_iff [] = (λ e. tt, λ h. refl)
  evaluate_destinations-eq-passed_iff ((c, l) ∷ groups) = elim (Bool-cases (supports_l2_checks c)) [
    | inr unsupported ↦ rw unsupported (λ e. cc, λ h. cc h.0.1.0)
    | inl supported ↦ rw supported (elim (Bool-cases (any not_validated l)) [
      | inl bad ↦ rw bad (λ e. cc, λ h. cc h.0.0)
      | inr good ↦ rw good (elim (Option-cases (lookup c destination_checks)) [
        | inl missing ↦ rw missing (λ e. cc, λ h. cc h.0.1.2)
        | inr (checks, found) ↦ rw found (
            let here =
              checks_outcome-eq-passed_iff (destination_inconclusive c)
                (evaluate_destinations destination_checks groups) checks (named c checks found) in
            let ih = evaluate_destinations-eq-passed_iff groups in
            (
              λ e. let (h, g) = here.0 e in ((refl, (refl, checks, refl, h)), ih.0 g),
              λ p. here.1 (
                subst (λ cs. AreHealthy (values cs)) (sym (some-injective _ _ p.0.1.2)) p.0.1.3,
                ih.1 p.1,
              ),
            ))
      ])
    ])
  ]

  -- The gate passes a proposal exactly when its predecessor's source simulation succeeded, no
  -- cross-chain job failed, the source checks are healthy, and every destination result succeeded with
  -- a simulation, on a chain that supports checks and whose checks are there and healthy. Checks are
  -- healthy when none has errors and at least one was not skipped. Every check has a name.
  pub evaluate_dependency_outcome-eq-passed_iff :
      (result : PredecessorResult) (checks : AllCheckResults)
      → AreNamed (values checks)
      → (evaluate_dependency_outcome result checks destination_checks ≡ passed) ↔ (
          (result.source_status ≡ true)
          × (result.cross_chain_failure ≡ false)
          × AreHealthy (values checks)
          × All (IsResultValid (IsChainChecked destination_checks)) result.destination_job_results)
  unfolding evaluate_dependency_outcome
  evaluate_dependency_outcome-eq-passed_iff result checks named_source =
      let groups = group_by_chain [] result.destination_job_results in
      let source =
        checks_outcome-eq-passed_iff source_inconclusive
          (evaluate_destinations destination_checks groups) checks named_source in
      let destinations = evaluate_destinations-eq-passed_iff groups in
      let grouped =
        All-group_by_chain (IsChainChecked destination_checks) [] result.destination_job_results in
      elim (Bool-cases result.source_status) [
        | inr bad ↦ rw bad (λ e. cc, λ h. cc h.0)
        | inl good ↦ rw good (elim (Bool-cases result.cross_chain_failure) [
          | inl bad ↦ rw bad (λ e. cc, λ h. cc h.1)
          | inr fine ↦ rw fine (
            λ e. let (h, g) = source.0 e in (refl, refl, h, (grouped.0 (destinations.0 g)).1),
            λ h. source.1 (h.2, destinations.1 (grouped.1 (tt, h.3))),
          )
        ])
      ]

failed_of_Verdict :
    (r : Reason) (go_on : DependencyOutcome) (checks : AllCheckResults) {o : DependencyOutcome}
    → HasErrors checks
    → Verdict r go_on checks o
    → (why : Reason) × (o ≡ failed why)
failed_of_Verdict r go_on checks bad (healthy h) = absurd (not_both (values checks) h.clean bad)
failed_of_Verdict r go_on checks bad (erring e n) = (check_failed n, refl)
failed_of_Verdict r go_on checks bad (idle e h) = absurd (e bad)

left_errors : {a b : Bool} {E : Type 0} → a ≡ true → b ≡ false → (a ≡ false) ⊎ (b ≡ true) ⊎ E → E
left_errors p q (inl e) = cc
left_errors p q (inr (inl e)) = cc
left_errors p q (inr (inr h)) = h

-- A failed source simulation, a failed cross-chain job or any error among the source checks makes the
-- gate answer failed, whatever the destinations did. Every source check has a name.
pub evaluate_dependency_outcome-failed :
    (result : PredecessorResult) (checks : AllCheckResults)
    (destination_checks : Dict ℕ AllCheckResults)
    → AreNamed (values checks)
    → (result.source_status ≡ false) ⊎ (result.cross_chain_failure ≡ true) ⊎ HasErrors checks
    → (why : Reason) × (evaluate_dependency_outcome result checks destination_checks ≡ failed why)
unfolding evaluate_dependency_outcome
evaluate_dependency_outcome-failed result checks destination_checks named bad =
    elim (Bool-cases result.source_status) [
      | inr stopped ↦ (source_failed, rw stopped)
      | inl ran ↦ rw ran (elim (Bool-cases result.cross_chain_failure) [
        | inl broken ↦ (cross_chain_failed, rw broken)
        | inr fine ↦ rw fine (
            failed_of_Verdict _ _ checks (left_errors ran fine bad) (
              checks_outcome-Verdict source_inconclusive
                (evaluate_destinations destination_checks
                  (group_by_chain [] result.destination_job_results))
                checks named))
      ])
    ]
