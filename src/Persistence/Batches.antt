-- ===== src/Persistence/Batches.antt =====
-- What `persist_run` of src/usagebassoon/persistence.py accepts and what it hands to the backend.
use usagebassoon.Prelude.{
  String, Bool, [], ◌∷◌, ◌++◌, is_empty, if◌then◌else◌, Dict, lookup, contains, difference, ok,
  string_eq, ◌≡◌, refl, arith,
}
use usagebassoon.Ingest.Bundle.{CollectionBundle}
use usagebassoon.Normalizer.Facts.{session_rows, daily_stats_rows, price_version_rows}
use usagebassoon.Normalizer.Diagnostics.{ledger_rows, issue_rows, drift_rows}
use usagebassoon.Normalizer.Tables.{
  Table, sessions, daily_stats, price_versions, reconciliation_issues, payload_drift_events,
  collection_ledger, when_rows, normalize,
}
use usagebassoon.Persistence.{PersistenceBatch, prepare_batch, present_tables}

-- A table that may be left out.
abbrev part : Bool → String → Table → Dict String Table
part empty name table = if empty then [] else (name, table) ∷ []

prepare_batch-parts :
    (run_id : String) (no_s no_d no_p no_i no_e : Bool) (s d p l i e : Table)
    → prepare_batch (record {
      run_id = run_id;
      tables =
          part no_s "sessions" s
          ++ part no_d "daily_stats" d
          ++ part no_p "price_versions" p
          ++ (("collection_ledger", l) ∷ [])
          ++ part no_i "reconciliation_issues" i
          ++ part no_e "payload_drift_events" e;
    })
      ≡ ok (record {
        run_id = run_id;
        current_state =
            part no_s "sessions" s ++ part no_d "daily_stats" d ++ part no_p "price_versions" p;
        append_only = part no_e "payload_drift_events" e ++ part no_i "reconciliation_issues" i;
        collection_ledger = l;
      })
unfolding prepare_batch present_tables lookup contains difference
prepare_batch-parts run_id no_s no_d no_p no_i no_e s d p l i e = ground arith

-- Every run that is normalized is accepted: its batch has the run's id, the run's ledger, and every
-- table that the run has, in the part of the batch where it belongs.
pub prepare_batch-normalize :
    (bundle : CollectionBundle)
    → (batch : PersistenceBatch) × (prepare_batch (normalize bundle) ≡ ok batch)
      × (batch.run_id ≡ bundle.run_id)
      × (batch.collection_ledger ≡ collection_ledger (ledger_rows bundle))
      × (batch.current_state
          ≡ when_rows "sessions" sessions (
              session_rows bundle.report_rows bundle.finished_at bundle.source_id bundle.started_at)
            ++ when_rows "daily_stats" daily_stats
                (daily_stats_rows bundle.daily_models bundle.started_at bundle.source_id)
            ++ when_rows "price_versions" price_versions
                (price_version_rows bundle.pricing_by_day bundle.source_id bundle.started_at))
      × (batch.append_only
          ≡ when_rows "payload_drift_events" payload_drift_events
              (drift_rows bundle bundle.finished_at)
            ++ when_rows "reconciliation_issues" reconciliation_issues
                (issue_rows bundle bundle.finished_at))
unfolding normalize
prepare_batch-normalize bundle =
    let at = bundle.finished_at in
    let s = session_rows bundle.report_rows at bundle.source_id bundle.started_at in
    let d = daily_stats_rows bundle.daily_models bundle.started_at bundle.source_id in
    let p = price_version_rows bundle.pricing_by_day bundle.source_id bundle.started_at in
    let i = issue_rows bundle at in
    let e = drift_rows bundle at in
    (
      _,
      prepare_batch-parts bundle.run_id (is_empty s) (is_empty d) (is_empty p) (is_empty i)
          (is_empty e) (sessions s) (daily_stats d) (price_versions p)
          (collection_ledger (ledger_rows bundle)) (reconciliation_issues i)
          (payload_drift_events e),
      refl,
      refl,
      refl,
      refl,
    )
