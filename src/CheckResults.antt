-- ===== src/CheckResults.antt =====
-- utils/check-results.ts: the results of the same checks on several chains or calls, merged.
pub mod Laws
use governance_seatbelt.Prelude.{
  String, Option, none, some, List, [], ◌∷◌, ◌++◌, Bool, true, false, not, ◌&&◌, ◌||◌,
  if◌then◌else◌, ◌==◌, string_eq, from_option, or_else, filter_by,
}
use governance_seatbelt.Dict.{Dict, lookup, put, spread}
use governance_seatbelt.Dedupe.{has, dedupe}
use governance_seatbelt.Text.{concat}
use governance_seatbelt.Json.{
  Json, null, str, arr, obj, Items, nil, cons, Fields, end, field, replace_bigints, json_eq,
}
use governance_seatbelt.Checks.{CheckResult, NamedResult, AllCheckResults}

-- By the texts of `JSON.stringify`: two values have the same one if they agree once bigints are texts.
pub dedupe_json_from : List Json → List Json → List Json
dedupe_json_from seen [] = []
dedupe_json_from seen (item ∷ items) = elim (has (replace_bigints item) seen) [
  | true ↦ dedupe_json_from seen items
  | false ↦ item ∷ dedupe_json_from (replace_bigints item ∷ seen) items
]

pub dedupe_json_values : List Json → List Json
dedupe_json_values items = dedupe_json_from [] items

-- `reasons.join(' | ')`
abbrev join_reasons : List String → String
join_reasons [] = ""
join_reasons (reason ∷ []) = reason
join_reasons (reason ∷ next ∷ reasons) =
    concat reason (concat " | " (join_reasons (next ∷ reasons)))

-- `Boolean(reason)`
abbrev pub is_reason : String → Bool
is_reason reason = not (reason == "")

abbrev skip_of : List String → Option String
skip_of [] = none
skip_of (reason ∷ reasons) = some (join_reasons (dedupe (reason ∷ reasons)))

pub merge_skipped : Option String → Option String → Option String
merge_skipped (some current) (some next) = skip_of (filter_by is_reason (current ∷ next ∷ []))
merge_skipped _ _ = none

abbrev if_any : List Json → Option (List Json)
if_any [] = none
if_any (item ∷ items) = some (item ∷ items)

-- `dedupeJsonValues([...(current ?? []), ...(next ?? [])])`, absent if it is empty
pub merge_lists : Option (List Json) → Option (List Json) → Option (List Json)
unfolding dedupe_json_values
merge_lists current next =
    if_any (dedupe_json_values (from_option [] current ++ from_option [] next))

abbrev items_list : Items → List Json
items_list nil = []
items_list (cons x xs) = x ∷ items_list xs

abbrev list_items : List Json → Items
list_items [] = nil
list_items (x ∷ xs) = cons x (list_items xs)

abbrev fields_dict : Fields → Dict String Json
fields_dict end = []
fields_dict (field k x fs) = (k, x) ∷ fields_dict fs

abbrev dict_fields : Dict String Json → Fields
dict_fields [] = end
dict_fields ((k, x) ∷ m) = field k x (dict_fields m)

abbrev is_snapshot_type : String → Bool
is_snapshot_type type = type == "treasuryBalances/v2" || type == "assetBalances/v3"

-- The type that both have, if it is one of the two types of before and after snapshots.
abbrev same_snapshot : Option Json → Option Json → Option String
same_snapshot (some (str a)) (some (str b)) = if is_snapshot_type a && a == b then some a else none
same_snapshot _ _ = none

-- `Array.isArray(data.steps) ? data.steps : [data]`
abbrev steps_of : Fields → Option Json → List Json
steps_of fs (some (arr steps)) = items_list steps
steps_of fs _ = obj fs ∷ []

pub merge_objects : Fields → Fields → Option String → Json
merge_objects a b (some type) = obj (
    field "type" (str type) (
      field "steps"
        (arr (
          list_items (
            steps_of a (lookup "steps" (fields_dict a))
            ++ steps_of b (lookup "steps" (fields_dict b)))))
        end))
merge_objects a b none = obj (dict_fields (spread (fields_dict a) (fields_dict b)))

-- `current.data ?? next.data`, and the cases in which both are there
pub merge_payload : Option Json → Option Json → Option Json
unfolding dedupe_json_values
merge_payload (some (arr xs)) (some (arr ys)) =
    some (arr (list_items (dedupe_json_values (items_list xs ++ items_list ys))))
merge_payload (some (obj fs)) (some (obj gs)) = some (
    merge_objects fs gs
      (same_snapshot (lookup "type" (fields_dict fs)) (lookup "type" (fields_dict gs))))
merge_payload (some null) next = next
merge_payload (some current) next = some current
merge_payload none next = next

pub merge_check_result : CheckResult → CheckResult → CheckResult
merge_check_result current next = record {
  info = dedupe (current.info ++ next.info);
  warnings = dedupe (current.warnings ++ next.warnings);
  errors = dedupe (current.errors ++ next.errors);
  payload = merge_payload current.payload next.payload;
  skipped = merge_skipped current.skipped next.skipped;
  permissions_diff = merge_lists current.permissions_diff next.permissions_diff;
  storage_changes = merge_lists current.storage_changes next.storage_changes;
}

abbrev pub merge_named : Option NamedResult → NamedResult → NamedResult
merge_named none next = next
merge_named (some current) next = record {
  name = if current.name == "" then next.name else current.name;
  result = merge_check_result current.result next.result;
}

pub merge_all_check_results : AllCheckResults → AllCheckResults → AllCheckResults
merge_all_check_results merged [] = merged
merge_all_check_results merged ((check_id, next) ∷ rest) =
    merge_all_check_results (put check_id (merge_named (lookup check_id merged) next) merged) rest
