-- ===== src/Normalizer/Tables.antt =====
-- `normalize` and `failed_collection` of src/usagebassoon/normalizer.py: which tables a run has.
use usagebassoon.Prelude.{String, none, some, List, [], ◌∷◌, ◌++◌, is_empty, if◌then◌else◌, Dict}
use usagebassoon.Usage.{Time, day_of}
use usagebassoon.Ingest.Bundle.{CollectionBundle}
use usagebassoon.Normalizer.Facts.{
  StoredSession, StoredUsage, StoredPrice, session_rows, daily_stats_rows, price_version_rows,
}
use usagebassoon.Normalizer.Diagnostics.{
  LedgerRow, IssueRow, DriftRow, ledger_rows, issue_rows, drift_rows,
}

-- A table is one of the six, with its rows.
pub data Table : Type 0 where
  sessions : List StoredSession → Table
  daily_stats : List StoredUsage → Table
  price_versions : List StoredPrice → Table
  collection_ledger : List LedgerRow → Table
  reconciliation_issues : List IssueRow → Table
  payload_drift_events : List DriftRow → Table

pub record NormalizedBundle : Type 0 where
  pub run_id : String
  pub tables : Dict String Table

-- A table without rows is left out.
abbrev pub when_rows {ℓ} : {A : Type ℓ} → String → (List A → Table) → List A → Dict String Table
when_rows name table rows = if is_empty rows then [] else (name, table rows) ∷ []

unfoldable pub normalize : CollectionBundle → NormalizedBundle
unfolding session_rows daily_stats_rows price_version_rows ledger_rows issue_rows drift_rows
normalize bundle =
    let at = bundle.finished_at in
    let freshness_at = bundle.started_at in
    record {
      run_id = bundle.run_id;
      tables =
          when_rows "sessions" sessions
            (session_rows bundle.report_rows at bundle.source_id freshness_at)
          ++ when_rows "daily_stats" daily_stats
              (daily_stats_rows bundle.daily_models freshness_at bundle.source_id)
          ++ when_rows "price_versions" price_versions
              (price_version_rows bundle.pricing_by_day bundle.source_id freshness_at)
          ++ when_rows "collection_ledger" collection_ledger (ledger_rows bundle)
          ++ when_rows "reconciliation_issues" reconciliation_issues (issue_rows bundle at)
          ++ when_rows "payload_drift_events" payload_drift_events (drift_rows bundle at);
    }

-- The record of a run that failed before it had data.
failed_collection : String → String → Time → Time → String → NormalizedBundle
failed_collection run_id source_id started_at finished_at error =
    let row : LedgerRow = record {
      run_id = run_id;
      source_id = source_id;
      started_at = started_at;
      finished_at = finished_at;
      status = "failed";
      day = day_of started_at;
      domain = "collection";
      expected_count = none;
      succeeded_count = none;
      failure_code = some error;
      collected_at = started_at;
    } in
    record { run_id = run_id; tables = ("collection_ledger", collection_ledger (row ∷ [])) ∷ [] }
