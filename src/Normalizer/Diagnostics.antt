-- ===== src/Normalizer/Diagnostics.antt =====
-- `_diagnostic_rows` of src/usagebassoon/normalizer.py: the ledger of the run, the reconciliation
-- issues and the drift events.
use usagebassoon.Prelude.{
  ℕ, ◌+◌, String, Bool, true, false, Option, none, some, List, [], ◌∷◌, ◌++◌, ◌&&◌, ◌||◌, not, ◌==◌,
  if◌then◌else◌, is_empty, leb, any, Dict, lookup, insert, values, map, string_eq, triple_eq,
}
use usagebassoon.Usage.{Day, Time, day_of}
use usagebassoon.Contract.Diff.{ContractDrift, DriftKind, Detail, drift_key}
use usagebassoon.Reconcile.{is_ok, ReconciliationIssue, ReconciliationIdentity, Message}
use usagebassoon.Ingest.Statuses.{IngestStatus}
use usagebassoon.Ingest.Bundle.{
  CollectionBundle, PayloadDriftState, PayloadDriftIdentity, drift_identity,
}

-- A row of `collection_ledger`: the run's own row or that of one target.
pub record LedgerRow : Type 0 where
  pub run_id : String
  pub source_id : String
  pub started_at : Time
  pub finished_at : Time
  pub status : String
  pub day : Day
  pub domain : String
  pub expected_count : Option ℕ
  pub succeeded_count : Option ℕ
  pub failure_code : Option String
  pub collected_at : Time

-- The status of the run.
run_status : CollectionBundle → String
run_status bundle =
    if bundle.drift_fatal
    then "failed"
    else if not (is_empty bundle.contract_drift)
    then "payload_drift"
    else if any (λ target. not (target.status == "complete")) bundle.ingest_status
        || not (is_ok bundle.reconciliation)
    then "partial"
    else "ok"

unfoldable pub run_row : CollectionBundle → LedgerRow
unfolding run_status
run_row bundle = record {
  run_id = bundle.run_id;
  source_id = bundle.source_id;
  started_at = bundle.started_at;
  finished_at = bundle.finished_at;
  status = run_status bundle;
  day = day_of bundle.started_at;
  domain = "collection";
  expected_count = none;
  succeeded_count = none;
  failure_code = none;
  collected_at = bundle.started_at;
}

-- The row of one target: a successful observation of a day that is still open is provisional.
unfoldable pub target_row : CollectionBundle → IngestStatus → LedgerRow
unfolding run_row
target_row bundle target =
    let open_day =
      (target.domain == "models")
      && ((target.status == "complete") && leb (day_of bundle.started_at) target.day) in
    record (run_row bundle) {
      status = if open_day then "provisional" else target.status;
      day = target.day;
      domain = target.domain;
      expected_count = target.expected_count;
      succeeded_count = target.succeeded_count;
      failure_code = target.failure_code;
    }

unfoldable pub ledger_rows : CollectionBundle → List LedgerRow
unfolding target_row
ledger_rows bundle = run_row bundle ∷ map (target_row bundle) bundle.ingest_status

pub record IssueRow : Type 0 where
  pub run_id : String
  pub source_id : String
  pub check_name : String
  pub issue_key : String
  pub message : Option Message
  pub created_at : Time
  pub collected_at : Time
  pub resolved : Bool
  pub observation_count : ℕ

observed_issue : CollectionBundle → Time → ReconciliationIssue → IssueRow
observed_issue bundle at issue = record {
  run_id = bundle.run_id;
  source_id = bundle.source_id;
  check_name = issue.check;
  issue_key = issue.key;
  message = some issue.message;
  created_at = at;
  collected_at = at;
  resolved = false;
  observation_count = 1;
}

resolved_issue : CollectionBundle → Time → ReconciliationIdentity → IssueRow
resolved_issue bundle at (check, key) = record {
  run_id = bundle.run_id;
  source_id = bundle.source_id;
  check_name = check;
  issue_key = key;
  message = none;
  created_at = at;
  collected_at = at;
  resolved = true;
  observation_count = 0;
}

unfoldable pub issue_rows : CollectionBundle → Time → List IssueRow
unfolding observed_issue resolved_issue
issue_rows bundle at =
    map (observed_issue bundle at) bundle.reconciliation.issues
    ++ map (resolved_issue bundle at) bundle.reconciliation.resolved

pub record DriftRow : Type 0 where
  pub run_id : String
  pub source_id : String
  pub domain : String
  pub tokscale_ver : String
  pub drift_key : String
  pub drift_kind : DriftKind
  pub path : String
  pub detail : Detail
  pub contract_tokscale_ver : String
  pub created_at : Time
  pub collected_at : Time
  pub resolved : Bool
  pub observation_count : ℕ

abbrev pub DriftRows : Type 0
DriftRows = Dict PayloadDriftIdentity DriftRow

-- The row of an identity that the run has not seen before.
unfoldable pub new_drift : CollectionBundle → Time → ContractDrift → DriftRow
new_drift bundle at drift = record {
  run_id = bundle.run_id;
  source_id = bundle.source_id;
  domain = drift.domain;
  tokscale_ver = bundle.graph.version;
  drift_key = drift_key drift;
  drift_kind = drift.drift_kind;
  path = drift.path;
  detail = drift.detail;
  contract_tokscale_ver = drift.contract_tokscale_ver;
  created_at = at;
  collected_at = at;
  resolved = false;
  observation_count = 1;
}

unfoldable pub repeat_drift : ContractDrift → DriftRow → DriftRow
repeat_drift drift row = record row {
  detail = drift.detail;
  contract_tokscale_ver = drift.contract_tokscale_ver;
  observation_count = row.observation_count + 1;
}

-- One more observation: a new row, or one more in the count of the row of the same identity.
unfoldable pub observe_drift : CollectionBundle → Time → DriftRows → ContractDrift → DriftRows
unfolding new_drift repeat_drift
observe_drift bundle at rows drift =
    let identity : PayloadDriftIdentity = (drift.domain, bundle.graph.version, drift_key drift) in
    elim (lookup identity rows) [
      | none ↦ insert identity (new_drift bundle at drift) rows
      | some row ↦ insert identity (repeat_drift drift row) rows
    ]

unfoldable pub observe_drifts : CollectionBundle → Time → DriftRows → List ContractDrift → DriftRows
unfolding observe_drift
observe_drifts bundle at rows [] = rows
observe_drifts bundle at rows (drift ∷ drifts) =
    observe_drifts bundle at (observe_drift bundle at rows drift) drifts

resolved_drift : CollectionBundle → Time → PayloadDriftState → DriftRow
resolved_drift bundle at state = record {
  run_id = bundle.run_id;
  source_id = bundle.source_id;
  domain = state.domain;
  tokscale_ver = state.tokscale_ver;
  drift_key = state.drift_key;
  drift_kind = state.drift_kind;
  path = state.path;
  detail = state.detail;
  contract_tokscale_ver = state.contract_tokscale_ver;
  created_at = state.created_at;
  collected_at = at;
  resolved = true;
  observation_count = 0;
}

-- A resolved event takes the place of the row of its identity.
resolve_drift : CollectionBundle → Time → DriftRows → PayloadDriftState → DriftRows
unfolding resolved_drift
resolve_drift bundle at rows state =
    insert (drift_identity state) (resolved_drift bundle at state) rows

resolve_drifts : CollectionBundle → Time → DriftRows → List PayloadDriftState → DriftRows
unfolding resolve_drift
resolve_drifts bundle at rows [] = rows
resolve_drifts bundle at rows (state ∷ states) =
    resolve_drifts bundle at (resolve_drift bundle at rows state) states

unfoldable pub drift_rows : CollectionBundle → Time → List DriftRow
unfolding observe_drifts resolve_drifts
drift_rows bundle at = values (
    resolve_drifts bundle at (observe_drifts bundle at [] bundle.contract_drift)
      bundle.resolved_payload_drift)
