-- ===== src/Report.antt =====
-- Report parsing: `parse_report` of src/usagebassoon/parsers/report.py on rows that pydantic has
-- validated, with the merge of repeated session rows. `none` is the `ValueError` of a conflict.
pub mod Tests
pub mod Laws
use usagebassoon.Prelude.{
  ℕ, String, Bool, Option, none, some, List, [], ◌∷◌, ◌++◌, ◌||◌, not, min, max, leb, ◌==◌,
  if◌then◌else◌, Dict, lookup, insert, values, contains, string_eq, pair_eq, option_eq,
}
use usagebassoon.Usage.{SessionRow, Time}

abbrev pub SessionKey : Type 0
SessionKey = String × String

abbrev pub session_key : SessionRow → SessionKey
session_key row = (row.client, row.session_id)

-- `_merge_models`: the models of the second row that the first lacks follow in order.
pub merge_models : List String → List String → List String
merge_models models [] = models
merge_models models (model ∷ duplicate) =
    merge_models (if contains models model then models else models ++ model ∷ []) duplicate

-- `_newest_report_row`
pub newest_report_row : SessionRow → SessionRow → SessionRow
newest_report_row existing duplicate = elim existing.last_active [
  | none ↦ duplicate
  | some first ↦ elim duplicate.last_active [
    | none ↦ existing
    | some second ↦ if leb first second then duplicate else existing
  ]
]

-- `min(values) if values else None` over the values that are not `None`, and the same with `max`
pub combine_times : (ℕ → ℕ → ℕ) → Option Time → Option Time → Option Time
combine_times op none second = second
combine_times op (some first) none = some first
combine_times op (some first) (some second) = some (op first second)

-- The `model_copy` that a merge returns.
pub merged_row : SessionRow → SessionRow → SessionRow
merged_row existing duplicate = record (newest_report_row existing duplicate) {
  created_at = combine_times min existing.created_at duplicate.created_at;
  last_active = combine_times max existing.last_active duplicate.last_active;
  models_used = merge_models existing.models_used duplicate.models_used;
}

-- `_merge_duplicate_session`
pub merge_duplicate_session : SessionRow → SessionRow → Option SessionRow
unfolding merged_row
merge_duplicate_session existing duplicate =
    if not (session_key existing == session_key duplicate)
    then none
    else if not (existing.workspace == duplicate.workspace)
        || not (existing.workspace_label == duplicate.workspace_label)
    then none
    else some (merged_row existing duplicate)

abbrev pub Sessions : Type 0
Sessions = Dict SessionKey SessionRow

-- One round of the loop of `parse_report`.
pub report_row : Sessions → SessionRow → Option Sessions
report_row rows session = elim (lookup (session_key session) rows) [
  | none ↦ some (insert (session_key session) session rows)
  | some existing ↦ elim (merge_duplicate_session existing session) [
    | none ↦ none
    | some merged ↦ some (insert (session_key session) merged rows)
  ]
]

pub report_rows : Sessions → List SessionRow → Option Sessions
report_rows rows [] = some rows
report_rows rows (session ∷ payload) = elim (report_row rows session) [
  | none ↦ none
  | some next ↦ report_rows next payload
]

-- `parse_report`
unfoldable pub parse_report : List SessionRow → Option (List SessionRow)
unfolding report_rows
parse_report payload = elim (report_rows [] payload) [
  | none ↦ none
  | some rows ↦ some (values rows)
]
