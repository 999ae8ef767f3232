-- ===== src/Ingest/Statuses.antt =====
-- The retry ledger that `build_collection_bundle` of src/usagebassoon/ingest.py writes.
use usagebassoon.Prelude.{
  ℕ, String, Bool, Option, none, some, List, [], ◌∷◌, ◌++◌, ◌&&◌, not, ◌==◌, or_else, if◌then◌else◌,
  is_empty, leb, length, select, is_some, Dict, lookup, insert, contains, difference, inter, union,
  to_set, sort_by, sorted, map, string_eq, nat_eq, pair_eq, nat_ord, option_eq, pair_ord,
  string_ord,
}
use usagebassoon.Usage.{Day, SessionRow}
use usagebassoon.Reconcile.{ReconciliationIdentity, ReconciliationIssue, ReconciliationResult}

-- A day and a domain.
abbrev pub IngestTarget : Type 0
IngestTarget = Day × String

abbrev pub SessionIdentity : Type 0
SessionIdentity = String × String

pub record IngestStatus : Type 0 where
  pub day : Day
  pub domain : String
  pub status : String
  pub expected_count : Option ℕ
  pub succeeded_count : Option ℕ
  pub run_id : String
  pub failure_code : Option String

-- `_status`: the ledger row of one target, with both counts known.
unfoldable pub ledger_row : Day → String → String → ℕ → ℕ → String → Option String → IngestStatus
ledger_row day domain status expected succeeded run_id failure = record {
  day = day;
  domain = domain;
  status = status;
  expected_count = some expected;
  succeeded_count = some succeeded;
  run_id = run_id;
  failure_code = failure;
}

-- A day of daily models that was fetched and parsed.
unfoldable pub models_status : List Day → String → Day → IngestStatus
unfolding ledger_row
models_status affected run_id day =
    if contains affected day
    then ledger_row day "models" "partial" 1 0 run_id (some "reconciliation")
    else ledger_row day "models" "complete" 1 1 run_id none

-- A day of daily models that was not.
unfoldable pub failed_status : String → Day × String → IngestStatus
unfolding ledger_row
failed_status run_id (day, failure) = ledger_row day "models" "failed" 1 0 run_id (some failure)

abbrev pub by_failed_day : Day × String → Day × String → Bool
by_failed_day (d, f) (e, g) = leb d e

unfoldable pub models_statuses : List Day → List Day → Dict Day String → String → List IngestStatus
unfolding models_status failed_status
models_statuses affected days failures run_id =
    map (models_status affected run_id) (sorted days)
    ++ map (failed_status run_id) (sort_by by_failed_day failures)

-- `current_models_status`: the last row of a day stands.
unfoldable pub current_status : List IngestStatus → Dict Day IngestStatus → Dict Day IngestStatus
current_status [] found = found
current_status (s ∷ statuses) found = current_status statuses (insert s.day s found)

-- `pending_prior_days`
unfoldable pub pending_prior_days :
    Dict Day IngestStatus → Dict IngestTarget IngestStatus → List Day
pending_prior_days current [] = []
pending_prior_days current (((day, domain), prior) ∷ rest) =
    let days = pending_prior_days current rest in
    if (domain == "models")
      && ((prior.failure_code == some "reconciliation")
          && not ((or_else (lookup day current) prior).status == "complete"))
    then day ∷ days
    else days

abbrev pub identity_of : ReconciliationIssue → ReconciliationIdentity
identity_of issue = (issue.check, issue.key)

abbrev pub is_models_check : ReconciliationIdentity → Bool
is_models_check (check, key) = contains ("models_payload_totals" ∷ "models_payload_keys" ∷ []) check

-- The issues of earlier runs that this run resolves: none, unless it has daily models, no failed
-- day, and no earlier mismatch that is still open.
unfoldable pub resolve_issues :
    Bool
    → List Day
    → Dict Day String
    → List ReconciliationIdentity
    → ReconciliationResult
    → ReconciliationResult
resolve_issues no_models pending failures prior r =
    if not no_models && (is_empty pending && is_empty failures)
    then record r {
      resolved = sorted (select is_models_check (difference prior (map identity_of r.issues)));
    }
    else r

unfoldable pub report_status : Dict Day String → Bool → String → Day → IngestStatus
unfolding ledger_row
report_status failures inventory run_id day =
    let failed = is_some (lookup day failures) in
    ledger_row day (if inventory then "report_inventory" else "report")
      (if failed then "failed" else "complete") 1 (if failed then 0 else 1) run_id
      (lookup day failures)

abbrev pub session_identity : SessionRow → SessionIdentity
session_identity row = (row.client, row.session_id)

-- The row on the sessions that the report had to describe, where there are any.
unfoldable pub session_statuses :
    List SessionIdentity → List SessionRow → Day → String → List IngestStatus
unfolding ledger_row
session_statuses expected rows day run_id =
    let found = to_set (map session_identity rows) in
    let missing = difference expected found in
    if is_empty expected
    then []
    else if is_empty missing
    then ledger_row day "session_metadata" "complete" (length expected)
        (length (inter expected found)) run_id none
      ∷ []
    else ledger_row day "session_metadata" "partial" (length expected)
        (length (inter expected found)) run_id (some "missing_sessions")
      ∷ []

-- The status and the failure code of one day of prices, from its counts.
unfoldable pub price_outcome : ℕ → ℕ → Option String → Bool → String × Option String
price_outcome expected succeeded failure affected =
    if affected
    then ("partial", some "reconciliation")
    else if (succeeded == expected) && not (is_some failure)
    then ("complete", failure)
    else if succeeded == 0
    then ("failed", some (or_else failure "incomplete"))
    else ("partial", some (or_else failure "incomplete"))

unfoldable pub price_status :
    Dict Day (List String)
    → Dict Day (List String)
    → Dict Day String
    → List Day
    → String
    → Day × List String
    → IngestStatus
unfolding price_outcome ledger_row
price_status existing fetched failures affected run_id (day, expected) =
    let covered = union (or_else (lookup day existing) []) (or_else (lookup day fetched) []) in
    let succeeded = length (inter expected covered) in
    let outcome =
      price_outcome (length expected) succeeded (lookup day failures) (contains affected day) in
    ledger_row day "pricing" outcome.0 (length expected) succeeded run_id outcome.1

abbrev pub by_priced_day : Day × List String → Day × List String → Bool
by_priced_day (d, m) (e, n) = leb d e

unfoldable pub price_statuses :
    Dict Day (List String)
    → Dict Day (List String)
    → Dict Day (List String)
    → Dict Day String
    → List Day
    → String
    → List IngestStatus
unfolding price_status
price_statuses expected existing fetched failures affected run_id =
    map (price_status existing fetched failures affected run_id) (sort_by by_priced_day expected)
