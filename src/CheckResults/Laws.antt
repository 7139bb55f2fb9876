-- ===== src/CheckResults/Laws.antt =====
-- What a merged result tells of the results that it was merged from.
use governance_seatbelt.Prelude.{
  String, Option, none, some, List, [], ◌∷◌, ◌++◌, true, ◌||◌, ◌==◌, string_eq, eq_iff, eq_refl,
  ◌≡◌, refl, ◌∙◌, sym, arith, ◌≢◌, ◌↔◌, ◌⊎◌, inl, inr, Bool-cases, is_some,
}
use governance_seatbelt.Dict.{lookup, put, IsDistinct}
use governance_seatbelt.Dict.Laws.{lookup-put}
use governance_seatbelt.Dedupe.{has, dedupe}
use governance_seatbelt.Dedupe.Laws.{has-dedupe, IsDeduped, dedupe-IsDeduped}
use governance_seatbelt.Json.{Json, json_eq}
use governance_seatbelt.Checks.{CheckResult, NamedResult, AllCheckResults}
use governance_seatbelt.CheckResults.{
  merge_skipped, merge_check_result, merge_named, merge_all_check_results,
}

has-append : (x : String) (xs ys : List String) → has x (xs ++ ys) ≡ (has x xs || has x ys)
has-append x [] ys = refl
has-append x (y ∷ xs) ys = ground (arith, has-append x xs ys)

-- The messages of a list are those of two others, each once.
pub record IsUnion (merged a b : List String) : Type 0 where
  pub members : (x : String) → has x merged ≡ (has x a || has x b)
  pub once : IsDeduped merged

dedupe-IsUnion : (a b : List String) → IsUnion (dedupe (a ++ b)) a b
dedupe-IsUnion a b = record {
  members = λ x. has-dedupe x (a ++ b) ∙ has-append x a b;
  once = dedupe-IsDeduped (a ++ b);
}

abbrev HasReason : Option String → Type 0
HasReason none = ⊥
HasReason (some reason) = reason ≢ ""

merge_skipped-is_some_iff :
    (a b : Option String)
    → (is_some (merge_skipped a b) ≡ true)
      ↔ ((is_some a ≡ true) × (is_some b ≡ true) × (HasReason a ⊎ HasReason b))
unfolding merge_skipped
merge_skipped-is_some_iff none b = ground arith
merge_skipped-is_some_iff (some a) none = ground arith
merge_skipped-is_some_iff (some a) (some b) = ground (arith, eq_iff a "", eq_iff b "")

-- What a merged result reports.
pub record IsMerge (m a b : CheckResult) : Type 0 where
  pub errors : IsUnion m.errors a.errors b.errors
  pub warnings : IsUnion m.warnings a.warnings b.warnings
  pub info : IsUnion m.info a.info b.info
  pub skipped_iff : (is_some m.skipped ≡ true) ↔ (
      (is_some a.skipped ≡ true)
      × (is_some b.skipped ≡ true)
      × (HasReason a.skipped ⊎ HasReason b.skipped))

-- The merge of two results has the errors of both, each once and no other, and so its warnings and
-- infos; it is skipped exactly if both were and one of them says why, so a check that ran on one chain
-- is not reported as skipped.
pub merge_check_result-IsMerge : (a b : CheckResult) → IsMerge (merge_check_result a b) a b
unfolding merge_check_result
merge_check_result-IsMerge a b = record {
  errors = dedupe-IsUnion a.errors b.errors;
  warnings = dedupe-IsUnion a.warnings b.warnings;
  info = dedupe-IsUnion a.info b.info;
  skipped_iff = merge_skipped-is_some_iff a.skipped b.skipped;
}

-- What the merged results have under an id.
abbrev pub merged_at : Option NamedResult → Option NamedResult → Option NamedResult
merged_at current none = current
merged_at current (some next) = some (merge_named current next)

-- If the next results are keyed by distinct ids, the merged results have under each id the merge of
-- the two results if both sides have one, the only result if one side has it, and else none.
pub lookup-merge_all_check_results :
    (id : String) (current next : AllCheckResults)
    → IsDistinct next
    → lookup id (merge_all_check_results current next)
      ≡ merged_at (lookup id current) (lookup id next)
unfolding merge_all_check_results lookup
lookup-merge_all_check_results id current [] d = refl
lookup-merge_all_check_results id current ((k, r) ∷ next) (new, d) =
    lookup-merge_all_check_results id (put k (merge_named (lookup k current) r) current) next d
    ∙ elim (Bool-cases (k == id)) [
      | inr other ↦ rw (lookup-put k id (merge_named (lookup k current) r) current) (rw other refl)
      | inl same ↦
          rw
            (
              sym ((eq_iff k id).0 same),
              lookup-put k k (merge_named (lookup k current) r) current,
              eq_refl k,
              new,
            )
            refl
    ]
