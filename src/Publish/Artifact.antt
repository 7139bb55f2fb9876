-- ===== src/Publish/Artifact.antt =====
-- utils/publish/artifact-validator.ts: which artifacts may be published. The texts of the issues that
-- zod finds in the others are not modelled.
use Prim.Native.Char.{Char, code}
use Prim.Native.String.{[] as empty, ◌∷◌ as ◌‚◌}
use governance_seatbelt.Prelude.{
  ℕ, zero, suc, String, Option, none, some, Bool, true, false, ◌&&◌, ◌||◌, not, leb, ltb,
  if◌then◌else◌, ◌==◌, string_eq, nat_eq,
}
use governance_seatbelt.Json.{Json, Items, Fields, num, str, arr, obj, nil, cons}
use governance_seatbelt.Json.Read.{member, as_string, as_items, as_fields, count_items}

abbrev between : ℕ → ℕ → Char → Bool
between low high c = leb low (code c) && leb (code c) high

is_hex_digit : Char → Bool
is_hex_digit c = between 48 57 c || between 97 102 c || between 65 70 c

-- `[a-fA-F0-9]{n}`
hex_digits : ℕ → String → Bool
unfolding is_hex_digit
hex_digits zero empty = true
hex_digits zero (c ‚ s) = false
hex_digits (suc n) empty = false
hex_digits (suc n) (c ‚ s) = is_hex_digit c && hex_digits n s

-- `/^0x[a-fA-F0-9]{40}$/`
unfoldable pub is_hex_address : String → Bool
unfolding hex_digits
is_hex_address (a ‚ (b ‚ s)) = code a == 48 && code b == 120 && hex_digits 40 s
is_hex_address _ = false

digits : String → Bool
digits empty = true
digits (c ‚ s) = between 48 57 c && digits s

-- `/^\d+$/`
unfoldable pub is_decimal : String → Bool
unfolding digits
is_decimal empty = false
is_decimal (c ‚ s) = digits (c ‚ s)

abbrev is_non_empty : String → Bool
is_non_empty s = not (s == "")

abbrev any_text : String → Bool
any_text s = true

-- A member that is a text of some form.
pub has_text : (String → Bool) → String → Fields → Bool
has_text p key fields = elim (as_string (member key fields)) [ none ↦ false | some s ↦ p s ]

-- The same, or no member.
pub may_have_text : (String → Bool) → String → Fields → Bool
unfolding has_text
may_have_text p key fields = elim (member key fields) [
  | none ↦ true
  | some value ↦ has_text p key fields
]

pub has_array : String → Fields → Bool
has_array key fields = elim (as_items (member key fields)) [ none ↦ false | some items ↦ true ]

-- `z.array(z.string())`
all_texts : Items → Bool
all_texts nil = true
all_texts (cons (str s) items) = all_texts items
all_texts _ = false

pub has_texts : String → Fields → Bool
unfolding all_texts
has_texts key fields = elim (as_items (member key fields)) [
  | none ↦ false
  | some items ↦ all_texts items
]

abbrev size_of : String → Fields → ℕ
size_of key fields = elim (as_items (member key fields)) [
  | none ↦ 0
  | some items ↦ count_items items
]

pub is_proposal_data : Fields → Bool
unfolding has_text has_texts
is_proposal_data data_ =
    has_text is_non_empty "id" data_
    && has_texts "targets" data_
    && has_texts "values" data_
    && has_texts "signatures" data_
    && has_texts "calldatas" data_
    && has_text any_text "description" data_
    && size_of "targets" data_ == size_of "values" data_
    && size_of "targets" data_ == size_of "signatures" data_
    && size_of "targets" data_ == size_of "calldatas" data_

abbrev is_publish_status : String → Bool
is_publish_status s = s == "success" || s == "warning" || s == "error" || s == "inconclusive"

abbrev is_simulation_type : String → Bool
is_simulation_type s = s == "new" || s == "proposed" || s == "executed"

abbrev is_decimal_or_unknown : String → Bool
is_decimal_or_unknown s = is_decimal s || s == "unknown"

-- With the natural number that a JSON number is, if it is one.
module _ (natural : String → Option ℕ) where
  abbrev pub as_natural : Option Json → Option ℕ
  as_natural (some (num n)) = natural n
  as_natural _ = none

  has_number : (ℕ → Bool) → String → Fields → Bool
  has_number p key fields = elim (as_natural (member key fields)) [ none ↦ false | some n ↦ p n ]

  pub is_publish_metadata : Fields → Bool
  unfolding has_text may_have_text has_number
  is_publish_metadata metadata =
      let executed = has_text (λ s. s == "executed") "simulationType" metadata in
      has_number (λ n. n == 1) "schemaVersion" metadata
      && has_text is_simulation_type "simulationType" metadata
      && has_text is_non_empty "proposalId" metadata
      && has_text is_hex_address "governorAddress" metadata
      && has_number (λ n. ltb 0 n) "chainId" metadata
      && has_text is_decimal "simulationBlockNumber" metadata
      && has_text is_decimal "simulationTimestamp" metadata
      && has_text is_decimal_or_unknown "proposalCreatedAtBlockNumber" metadata
      && has_text is_decimal_or_unknown "proposalCreatedAtTimestamp" metadata
      && may_have_text is_decimal "proposalExecutedAtBlockNumber" metadata
      && may_have_text is_decimal "proposalExecutedAtTimestamp" metadata
      && (not executed
          || (has_text is_decimal "proposalExecutedAtBlockNumber" metadata
              && has_text is_decimal "proposalExecutedAtTimestamp" metadata))

  -- A member that is an object that passes a test.
  abbrev has_object : (Fields → Bool) → String → Fields → Bool
  has_object p key fields = elim (as_fields (member key fields)) [ none ↦ false | some o ↦ p o ]

  pub is_structured_report : Fields → Bool
  unfolding is_publish_metadata has_text has_array
  is_structured_report report =
      has_text is_publish_status "status" report
      && has_text any_text "summary" report
      && has_array "checks" report
      && has_array "events" report
      && has_array "stateChanges" report
      && has_object is_publish_metadata "metadata" report

  pub is_report : Fields → Bool
  unfolding is_structured_report
  is_report report =
      has_text is_publish_status "status" report
      && has_text any_text "summary" report
      && has_text any_text "markdownReport" report
      && has_object is_structured_report "structuredReport" report

  abbrev status_of : Fields → Option String
  status_of report = as_string (member "status" report)

  -- `result.report.status === result.report.structuredReport.status`
  abbrev one_status : Fields → Bool
  one_status report = elim (as_fields (member "structuredReport" report)) [
    | none ↦ false
    | some structured ↦ elim (status_of report) [
      | none ↦ false
      | some s ↦ has_text (λ t. s == t) "status" structured
    ]
  ]

  pub is_simulation_result : Json → Bool
  unfolding is_proposal_data is_report
  is_simulation_result (obj result) =
      has_object is_proposal_data "proposalData" result
      && has_object is_report "report" result
      && has_object one_status "report" result
  is_simulation_result _ = false

  -- The one result of the artifact, if it is a valid one.
  unfoldable pub validate_publish_artifact : Json → Option Json
  unfolding is_simulation_result
  validate_publish_artifact (arr (cons candidate nil)) =
      if is_simulation_result candidate then some candidate else none
  validate_publish_artifact (arr _) = none
  validate_publish_artifact value = if is_simulation_result value then some value else none
