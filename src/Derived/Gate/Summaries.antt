-- ===== src/Derived/Gate/Summaries.antt =====
-- What the gate makes of the checks of one chain.
use governance_seatbelt.Prelude.{
  ℕ, suc, String, none, some, List, [], ◌∷◌, true, false, ◌||◌, if◌then◌else◌, nat_eq, string_eq,
  ◌==◌, ◌+◌, ◌≡◌, refl, ◌≢◌, inl, inr, arith, eq_iff, All, Some, Bool-cases, ◌∙◌, length, count,
  count-lt-length_iff, count-le-length, All-or-Some,
}
use governance_seatbelt.Dict.{values}
use governance_seatbelt.State.{non_empty}
use governance_seatbelt.Checks.{NamedResult, AllCheckResults}
use governance_seatbelt.Derived.Gate.{
  DependencyOutcome, failed, inconclusive, Reason, check_failed, Summary, has_errors, is_skipped,
  summarize_from, summarize_checks, checks_outcome, judge,
}

-- No check has errors, and at least one was not skipped.
pub record AreHealthy (checks : List NamedResult) : Type 0 where
  pub clean : All (λ c. has_errors c ≡ false) checks
  pub ran : Some (λ c. is_skipped c ≡ false) checks

abbrev pub AreNamed : List NamedResult → Type 0
AreNamed = All (λ c. c.name ≢ "")

summarize_from_clean :
    (t k : ℕ) (checks : List NamedResult)
    → All (λ c. has_errors c ≡ false) checks
    → summarize_from t k checks ≡ record {
      total = t + length checks;
      skipped = k + count is_skipped checks;
      failed_check_name = none;
    }
unfolding summarize_from
summarize_from_clean t k [] h = ground arith
summarize_from_clean t k (c ∷ cs) (h, hs) =
    rw h (summarize_from_clean (suc t) (if is_skipped c then suc k else k) cs hs ∙ ground arith)

-- The first check with errors is named.
summarize_from_dirty :
    (t k : ℕ) (checks : List NamedResult)
    → Some (λ c. has_errors c ≡ true) checks
    → AreNamed checks
    → (n : String) × ((summarize_from t k checks).failed_check_name ≡ some n) × (n ≢ "")
unfolding summarize_from
summarize_from_dirty t k [] h n = absurd h
summarize_from_dirty t k (c ∷ cs) h (n, ns) = elim (Bool-cases (has_errors c)) [
  | inl bad ↦ (c.name, rw bad, n)
  | inr fine ↦
      rw fine
        (summarize_from_dirty (suc t) (if is_skipped c then suc k else k) cs (ground arith) ns)
]

abbrev pub HasErrors : AllCheckResults → Type 0
HasErrors checks = Some (λ c. has_errors c ≡ true) (values checks)

-- What the gate makes of the checks of one chain.
pub data Verdict (none_ran : Reason) (go_on : DependencyOutcome) (checks : AllCheckResults)
    : DependencyOutcome → Type 0 where
  healthy : AreHealthy (values checks) → Verdict none_ran go_on checks go_on
  erring : HasErrors checks → (n : String) → Verdict none_ran go_on checks (failed (check_failed n))
  idle :
      ¬ HasErrors checks
      → ¬ AreHealthy (values checks)
      → Verdict none_ran go_on checks (inconclusive none_ran)

pub not_both :
    (checks : List NamedResult)
    → All (λ c. has_errors c ≡ false) checks
    → Some (λ c. has_errors c ≡ true) checks
    → ⊥
not_both [] h s = s
not_both (c ∷ cs) (h, hs) s = ground (arith, not_both cs hs)

module _ (none_ran : Reason) (go_on : DependencyOutcome) (checks : AllCheckResults) where
  judge-none :
      (t k : ℕ)
      → judge none_ran go_on (record { total = t; skipped = k; failed_check_name = none })
        ≡ (if t == 0 || k == t then inconclusive none_ran else go_on)
  unfolding judge non_empty
  judge-none t k = refl

  judge_named :
      (s : Summary) {n : String}
      → s.failed_check_name ≡ some n
      → n ≢ ""
      → judge none_ran go_on s ≡ failed (check_failed n)
  unfolding judge non_empty
  judge_named s {n} e h = rw e (ground (arith, eq_iff n ""))

  pub checks_outcome-Verdict :
      AreNamed (values checks)
      → Verdict none_ran go_on checks (checks_outcome none_ran go_on checks)
  unfolding summarize_checks
  checks_outcome-Verdict named = elim (All-or-Some has_errors (values checks)) [
    | inl clean ↦
        let ran = count-lt-length_iff is_skipped (values checks) in
        let le = count-le-length is_skipped (values checks) in
        rw (summarize_from_clean 0 0 (values checks) clean, judge-none)
          (elim (Bool-cases (
            0 + length (values checks) == 0
            || 0 + count is_skipped (values checks) == 0 + length (values checks))) [
              | inl nothing ↦
                  rw nothing (idle (not_both (values checks) clean) (λ h. ground (arith, h.ran)))
              | inr something ↦
                  rw something (healthy (record { clean = clean; ran = ran.0 (ground arith) }))
            ])
    | inr dirty ↦
        let (n, found, filled) = summarize_from_dirty 0 0 (values checks) dirty named in
        rw (judge_named (summarize_from 0 0 (values checks)) found filled) (erring dirty n)
  ]
