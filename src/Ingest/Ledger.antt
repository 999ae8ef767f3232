-- ===== src/Ingest/Ledger.antt =====
-- What the retry ledger of `build_collection_bundle` in src/usagebassoon/ingest.py records.
use usagebassoon.Prelude.{
  String, List, [], ◌++◌, All, All-imp, All-map, All-append, All-always, keys, sorted, map,
  string_eq, nat_eq, pair_eq, nat_ord,
}
use usagebassoon.Usage.{Day, Time, day_of}
use usagebassoon.Contract.Diff.{PayloadContract}
use usagebassoon.Reconcile.{reconcile_all}
use usagebassoon.Ingest.Plan.{Validators}
use usagebassoon.Ingest.Statuses.{
  IngestStatus, models_statuses, report_status, session_statuses, price_statuses,
}
use usagebassoon.Ingest.Payloads.{
  ParsedReports, PricePart, parse_reports, parse_prices, price_fetch_failures,
}
use usagebassoon.Ingest.Bundle.{
  IngestEvidence, CollectionBundle, priced_models, RawCollection, build_collection_bundle,
}
use usagebassoon.Ingest.Balanced.{
  IsBalanced, report_status-IsBalanced, session_statuses-IsBalanced, models_statuses-IsBalanced,
  price_statuses-IsBalanced,
}
use usagebassoon.Ingest.Completed.{
  ModelsDone, IsOther, IsOther-ModelsDone, report_status-IsOther, session_statuses-IsOther,
  price_statuses-IsOther, models_statuses-ModelsDone,
}

-- The bundle of a collection.
module _ (v : Validators) (reports prices : PayloadContract) (raw : RawCollection)
    (run_id source_id : String) (start finish : Time) (e : IngestEvidence) where
  abbrev pub bundle : CollectionBundle
  bundle = build_collection_bundle v reports prices raw run_id source_id start finish e

  abbrev pub report_part : ParsedReports
  report_part = parse_reports v reports e.report_fetch_failures raw.report_by_day

  abbrev pub price_part : PricePart
  price_part =
      parse_prices v prices
        (record {
          pricing_by_day = [];
          failures = price_fetch_failures e.pricing_fetch_failures [];
          events = [];
        })
        raw.pricing_by_day

  abbrev pub affected : List Day
  affected = bundle.reconciliation.affected_days

  abbrev model_rows : List IngestStatus
  model_rows =
      models_statuses (reconcile_all e.models_plan.daily_models).affected_days
        (keys e.models_plan.daily_models) e.models_failures run_id

  abbrev reported_rows : List IngestStatus
  reported_rows =
      map (report_status report_part.failures e.report_inventory run_id) (sorted e.report_days)

  abbrev pub session_rows : List IngestStatus
  session_rows = session_statuses e.expected_sessions report_part.rows (day_of start) run_id

  abbrev price_rows : List IngestStatus
  price_rows =
      price_statuses e.pricing_expected_models e.pricing_existing_models
        (priced_models price_part.pricing_by_day) price_part.failures affected run_id

  -- What holds of every part of the ledger holds of the ledger.
  pub All-ledger :
      (P : IngestStatus → Type 0)
      → All P model_rows
      → All P reported_rows
      → All P session_rows
      → All P price_rows
      → All P bundle.ingest_status
  unfolding build_collection_bundle
  All-ledger P a b c d =
      All-append P (model_rows ++ reported_rows ++ session_rows) price_rows
        (All-append P (model_rows ++ reported_rows) session_rows
          (All-append P model_rows reported_rows a b) c)
        d

  -- Every row of a bundle's ledger records how many payloads its target expected and how many
  -- succeeded, never more than were expected, and has status `complete` exactly when the two counts
  -- agree and no failure code is recorded.
  pub ingest_status-IsBalanced : All IsBalanced bundle.ingest_status
  ingest_status-IsBalanced =
      let days = sorted e.report_days in
      let status = report_status report_part.failures e.report_inventory run_id in
      All-ledger IsBalanced
        (models_statuses-IsBalanced (reconcile_all e.models_plan.daily_models).affected_days
          (keys e.models_plan.daily_models) e.models_failures run_id)
        (All-map IsBalanced status days (
          All-always (report_status-IsBalanced report_part.failures e.report_inventory run_id)
            days))
        (session_statuses-IsBalanced e.expected_sessions report_part.rows (day_of start) run_id)
        (price_statuses-IsBalanced e.pricing_expected_models e.pricing_existing_models
          (priced_models price_part.pricing_by_day) price_part.failures affected run_id)

  -- Every row of a bundle's ledger is on another domain than the daily models, or does not say
  -- `complete`, or is about a day on which every response is consistent with itself.
  pub ingest_status-ModelsDone : All (ModelsDone e.models_plan.daily_models) bundle.ingest_status
  ingest_status-ModelsDone =
      let daily = e.models_plan.daily_models in
      let days = sorted e.report_days in
      let status = report_status report_part.failures e.report_inventory run_id in
      All-ledger (ModelsDone daily)
        (models_statuses-ModelsDone daily (keys daily) e.models_failures run_id)
        (All-imp (IsOther-ModelsDone daily) reported_rows (
          All-map IsOther status days (
            All-always (report_status-IsOther report_part.failures e.report_inventory run_id)
              days)))
        (All-imp (IsOther-ModelsDone daily) session_rows
          (session_statuses-IsOther e.expected_sessions report_part.rows (day_of start) run_id))
        (All-imp (IsOther-ModelsDone daily) price_rows (
          price_statuses-IsOther e.pricing_expected_models e.pricing_existing_models
            (priced_models price_part.pricing_by_day) price_part.failures affected run_id))
