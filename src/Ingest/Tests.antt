-- ===== src/Ingest/Tests.antt =====
-- Runs of `build_collection_bundle` of src/usagebassoon/ingest.py on two days, of which the second
-- repeats a row, with one open issue and one open drift event.
use usagebassoon.Prelude.{
  ℕ, String, Bool, true, false, Option, none, some, List, [], ◌∷◌, Dict, All, contains, is_empty,
  map, keys, string_eq, pair_eq, triple_eq, nat_eq, ◌≡◌, refl,
}
use usagebassoon.Contract.Diff.{PayloadContract, ContractDrift, unknown_field, tolerated}
use usagebassoon.Reconcile.Tests.{two_days}
use usagebassoon.Ingest.Plan.{Validators}
use usagebassoon.Ingest.Statuses.{}
use usagebassoon.Ingest.Bundle.{
  IngestEvidence, CollectionBundle, PayloadDriftState, RawCollection, build_collection_bundle,
}
use usagebassoon.Ingest.Ledger.{ingest_status-IsBalanced, ingest_status-ModelsDone}
use usagebassoon.Ingest.Balanced.{IsBalanced}
use usagebassoon.Ingest.Failures.{KeepsFailures, ingest_status-KeepsFailures}
use usagebassoon.Ingest.Completed.{ModelsDone}
use usagebassoon.Ingest.Resolution.{HasNoRepeats, daily_models-HasNoRepeats}

-- A validation that refuses every payload.
abbrev refuse_all : Validators
refuse_all = record {
  graph = λ payload. none;
  models = λ payload. none;
  session = λ payload. none;
  pricing = λ payload. none;
}

abbrev empty_contract : PayloadContract
empty_contract = record { payload_kind = "report"; tokscale_version = "4.5"; entries = [] }

abbrev pub drifted : ContractDrift
drifted = record {
  domain = "graph";
  drift_kind = unknown_field;
  path = "extra";
  detail = tolerated ("str" ∷ []);
  contract_tokscale_ver = "4.5";
}

abbrev old_drift : PayloadDriftState
old_drift = record {
  domain = "graph";
  tokscale_ver = "4.6";
  drift_key = "missing_field:gone";
  drift_kind = unknown_field;
  path = "gone";
  detail = tolerated ("str" ∷ []);
  contract_tokscale_ver = "4.5";
  created_at = 1;
  observation_count = 2;
}

abbrev evidence_of : Dict ℕ String → IngestEvidence
evidence_of failures = record {
  graph_plan = record {
    graph = record { version = "4.6"; contributions = [] };
    candidate_days = 10 ∷ 11 ∷ [];
    contract_drift = drifted ∷ [];
  };
  models_plan = record {
    daily_models = two_days;
    models_by_day = [];
    contract_drift = [];
    failures = failures;
  };
  report_days = 10 ∷ [];
  report_fetch_failures = 10 ∷ [];
  pricing_expected_models = (10, "opus" ∷ []) ∷ (12, "haiku" ∷ []) ∷ [];
  pricing_existing_models = (10, "opus" ∷ []) ∷ [];
  pricing_fetch_failures = (12, "haiku" ∷ []) ∷ [];
  prior_statuses = [];
  prior_reconciliation_issues = ("models_payload_totals", "total_output_mismatch") ∷ [];
  prior_payload_drift = old_drift ∷ [];
  models_failures = failures;
  report_inventory = false;
  expected_sessions = ("claude", "s1") ∷ [];
}

abbrev nothing_raw : RawCollection
nothing_raw = record { report_by_day = []; pricing_by_day = [] }

abbrev pub two_day_bundle : CollectionBundle
two_day_bundle =
    build_collection_bundle refuse_all empty_contract empty_contract nothing_raw "run" "source"
      950400000000 950400000001 (evidence_of [])

two_day_bundle-days : keys two_day_bundle.daily_models ≡ 10 ∷ []
unfolding build_collection_bundle contains usagebassoon.Reconcile.reconcile_all
    usagebassoon.Prelude.to_set usagebassoon.Prelude.add
two_day_bundle-days = refl

two_day_bundle-statuses :
    map (λ row. row.status) two_day_bundle.ingest_status
    ≡ "complete" ∷ "partial" ∷ "failed" ∷ "partial" ∷ "complete" ∷ "failed" ∷ []
unfolding build_collection_bundle contains usagebassoon.Prelude.lookup
    usagebassoon.Prelude.difference usagebassoon.Reconcile.reconcile_all
    usagebassoon.Report.parse_report usagebassoon.Prelude.to_set usagebassoon.Prelude.add
    usagebassoon.Prelude.insert usagebassoon.Prelude.inter usagebassoon.Prelude.union
two_day_bundle-statuses = refl

resolved-of-two :
    contains two_day_bundle.reconciliation.resolved
      ("models_payload_totals", "total_output_mismatch")
    ≡ true
unfolding build_collection_bundle contains usagebassoon.Prelude.difference
    usagebassoon.Reconcile.reconcile_all usagebassoon.Prelude.insert usagebassoon.Prelude.to_set
    usagebassoon.Prelude.add usagebassoon.Prelude.lookup
resolved-of-two = refl

ingest_status-IsBalanced_example : All IsBalanced two_day_bundle.ingest_status
ingest_status-IsBalanced_example =
    ingest_status-IsBalanced refuse_all empty_contract empty_contract nothing_raw "run" "source"
      950400000000 950400000001 (evidence_of [])

ingest_status-ModelsDone_example : All (ModelsDone two_days) two_day_bundle.ingest_status
ingest_status-ModelsDone_example =
    ingest_status-ModelsDone refuse_all empty_contract empty_contract nothing_raw "run" "source"
      950400000000 950400000001 (evidence_of [])

daily_models-HasNoRepeats_example : All HasNoRepeats two_day_bundle.daily_models
daily_models-HasNoRepeats_example =
    daily_models-HasNoRepeats refuse_all empty_contract empty_contract nothing_raw "run" "source"
      950400000000 950400000001 (evidence_of [])

ingest_status-KeepsFailures_example :
    All (KeepsFailures (evidence_of []).pricing_fetch_failures) two_day_bundle.ingest_status
ingest_status-KeepsFailures_example =
    ingest_status-KeepsFailures refuse_all empty_contract empty_contract nothing_raw "run" "source"
      950400000000 950400000001 (evidence_of [])
