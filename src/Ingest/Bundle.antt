-- ===== src/Ingest/Bundle.antt =====
-- `build_ingest_evidence` and `build_collection_bundle` of src/usagebassoon/ingest.py, for evidence
-- that is given, as the collection gives it.
use usagebassoon.Prelude.{
  ℕ, ◌+◌, String, Bool, true, false, Option, List, [], ◌∷◌, ◌++◌, ◌&&◌, not, ◌==◌, or_else,
  if◌then◌else◌, is_empty, ltb, length, select, sum_of, Dict, lookup, keys, values, contains,
  subset, to_set, sorted, map, string_eq, nat_eq, nat_ord, pair_eq, triple_eq,
}
use usagebassoon.Usage.{Day, Time, day_of, SessionRow, GraphPayload, DailyModelsPayload}
use usagebassoon.Contract.Diff.{ContractDrift, DriftKind, Detail, PayloadContract, drift_key}
use usagebassoon.Reconcile.{ReconciliationIdentity, ReconciliationResult, reconcile_all}
use usagebassoon.Ingest.Plan.{Validators, GraphPlan, ModelsPlan}
use usagebassoon.Ingest.Payloads.{
  ReportPayload, RawPrices, ParsedPrices, ParsedReports, PricePart, parse_reports, parse_prices,
  price_fetch_failures,
}
use usagebassoon.Ingest.Statuses.{
  IngestTarget, IngestStatus, SessionIdentity, models_statuses, current_status, pending_prior_days,
  resolve_issues, report_status, session_statuses, price_statuses,
}

-- `PayloadDriftState` of src/usagebassoon/drift.py, with the value that its text is formatted from
pub record PayloadDriftState : Type 0 where
  pub domain : String
  pub tokscale_ver : String
  pub drift_key : String
  pub drift_kind : DriftKind
  pub path : String
  pub detail : Detail
  pub contract_tokscale_ver : String
  pub created_at : Time
  pub observation_count : ℕ

abbrev pub PayloadDriftIdentity : Type 0
PayloadDriftIdentity = String × String × String

-- `drift_identity`
abbrev pub drift_identity : PayloadDriftState → PayloadDriftIdentity
drift_identity s = (s.domain, s.tokscale_ver, s.drift_key)

pub record IngestEvidence : Type 0 where
  pub graph_plan : GraphPlan
  pub models_plan : ModelsPlan
  pub report_days : List Day
  pub report_fetch_failures : List Day
  pub pricing_expected_models : Dict Day (List String)
  pub pricing_existing_models : Dict Day (List String)
  pub pricing_fetch_failures : Dict Day (List String)
  pub prior_statuses : Dict IngestTarget IngestStatus
  pub prior_reconciliation_issues : List ReconciliationIdentity
  pub prior_payload_drift : List PayloadDriftState
  pub models_failures : Dict Day String
  pub report_inventory : Bool
  pub expected_sessions : List SessionIdentity

-- What the collection knows besides the two plans.
pub record Acquired : Type 0 where
  pub pricing_days : List Day
  pub persisted_models : Dict Day (List String)
  pub persisted_prices : Dict Day (List String)
  pub report_fetch_failures : List Day
  pub pricing_fetch_failures : Dict Day (List String)
  pub prior_statuses : Dict IngestTarget IngestStatus
  pub prior_reconciliation_issues : List ReconciliationIdentity
  pub prior_payload_drift : List PayloadDriftState
  pub report_days : Option (List Day)
  pub report_inventory : Bool
  pub expected_sessions : List SessionIdentity

-- The models of every priced day: the run's, or else the persisted ones.
expected_models :
    Dict Day (List String) → Dict Day (List String) → List Day → Dict Day (List String)
expected_models current persisted [] = []
expected_models current persisted (day ∷ days) =
    (day, or_else (lookup day current) (or_else (lookup day persisted) []))
    ∷ expected_models current persisted days

existing_models : Dict Day (List String) → List Day → Dict Day (List String)
existing_models persisted [] = []
existing_models persisted (day ∷ days) =
    (day, or_else (lookup day persisted) []) ∷ existing_models persisted days

build_ingest_evidence : GraphPlan → ModelsPlan → Acquired → IngestEvidence
unfolding expected_models existing_models
build_ingest_evidence graph_plan models_plan a = record {
  graph_plan = graph_plan;
  models_plan = models_plan;
  report_days = or_else a.report_days graph_plan.candidate_days;
  report_fetch_failures = a.report_fetch_failures;
  pricing_expected_models =
      expected_models models_plan.models_by_day a.persisted_models a.pricing_days;
  pricing_existing_models = existing_models a.persisted_prices a.pricing_days;
  pricing_fetch_failures = a.pricing_fetch_failures;
  prior_statuses = a.prior_statuses;
  prior_reconciliation_issues = a.prior_reconciliation_issues;
  prior_payload_drift = a.prior_payload_drift;
  models_failures = models_plan.failures;
  report_inventory = a.report_inventory;
  expected_sessions = a.expected_sessions;
}

-- The payloads that the bundle is built from, besides those in the plans.
pub record RawCollection : Type 0 where
  pub report_by_day : Dict Day ReportPayload
  pub pricing_by_day : RawPrices

pub record CollectionBundle : Type 0 where
  pub run_id : String
  pub source_id : String
  pub started_at : Time
  pub finished_at : Time
  pub daily_models : Dict Day DailyModelsPayload
  pub report_rows : List SessionRow
  pub graph : GraphPayload
  pub pricing_by_day : ParsedPrices
  pub ingest_status : List IngestStatus
  pub reconciliation : ReconciliationResult
  pub contract_drift : List ContractDrift
  pub resolved_payload_drift : List PayloadDriftState
  pub rows_in : ℕ
  pub drift_fatal : Bool

-- The models of each day in a dictionary of prices.
pub priced_models {ℓ} : {A : Type ℓ} → Dict Day (Dict String A) → Dict Day (List String)
priced_models [] = []
priced_models ((day, prices) ∷ rest) = (day, keys prices) ∷ priced_models rest

-- Every expected model of every day was fetched.
prices_fetched : Dict Day (List String) → RawPrices → Bool
prices_fetched [] raw = true
prices_fetched ((day, models) ∷ rest) raw =
    subset models (keys (or_else (lookup day raw) [])) && prices_fetched rest raw

-- `complete_domains`: the domains that this run saw in full.
complete_domains : IngestEvidence → RawCollection → ParsedReports → PricePart → List String
unfolding prices_fetched
complete_domains e raw reports prices =
    let daily = not (is_empty e.models_plan.daily_models) && is_empty e.models_failures in
    let report =
      not (is_empty e.report_days)
      && (is_empty reports.failures && subset e.report_days reports.valid_days) in
    let pricing =
      not (is_empty e.pricing_expected_models)
      && (ltb 0 (sum_of length (values e.pricing_expected_models))
          && (is_empty prices.failures
              && prices_fetched e.pricing_expected_models raw.pricing_by_day)) in
    "graph" ∷ (if daily then "models" ∷ [] else [])
    ++ (if report then "report" ∷ [] else [])
    ++ (if pricing then "pricing" ∷ [] else [])

-- `active_drift`
abbrev pub active_drift : String → List ContractDrift → List PayloadDriftIdentity
active_drift version events =
    to_set (map (λ event. (event.domain, version, drift_key event)) events)

-- Whether this run resolves an event of an earlier one.
pub is_resolved : String → List String → List PayloadDriftIdentity → PayloadDriftState → Bool
is_resolved version domains active state =
    (state.tokscale_ver == version)
    && (contains domains state.domain && not (contains active (drift_identity state)))

-- `{day: payload for day, payload in daily_models.items() if day not in unsafe_days}`
abbrev pub is_safe : List Day → Day × DailyModelsPayload → Bool
is_safe unsafe (day, payload) = not (contains unsafe day)

-- `build_collection_bundle`
unfoldable pub build_collection_bundle :
    Validators
    → PayloadContract
    → PayloadContract
    → RawCollection
    → String
    → String
    → Time
    → Time
    → IngestEvidence
    → CollectionBundle
unfolding parse_reports parse_prices price_fetch_failures models_statuses current_status
    pending_prior_days resolve_issues report_status session_statuses price_statuses priced_models
    complete_domains is_resolved
build_collection_bundle v report_contract pricing_contract raw run_id source_id started_at
      finished_at e =
    let daily_models = e.models_plan.daily_models in
    let reports = parse_reports v report_contract e.report_fetch_failures raw.report_by_day in
    let prices =
      parse_prices v pricing_contract
        (record {
          pricing_by_day = [];
          failures = price_fetch_failures e.pricing_fetch_failures [];
          events = [];
        })
        raw.pricing_by_day in
    let drift =
      e.graph_plan.contract_drift ++ e.models_plan.contract_drift ++ reports.events
      ++ prices.events in
    let found = reconcile_all daily_models in
    let models = models_statuses found.affected_days (keys daily_models) e.models_failures run_id in
    let pending = pending_prior_days (current_status models []) e.prior_statuses in
    let reconciliation =
      resolve_issues (is_empty daily_models) pending e.models_failures e.prior_reconciliation_issues
        found in
    let version = e.graph_plan.graph.version in
    let domains = complete_domains e raw reports prices in
    record {
      run_id = run_id;
      source_id = source_id;
      started_at = started_at;
      finished_at = finished_at;
      daily_models = select (is_safe reconciliation.unsafe_days) daily_models;
      report_rows = reports.rows;
      graph = e.graph_plan.graph;
      pricing_by_day = prices.pricing_by_day;
      ingest_status =
          models
          ++ map (report_status reports.failures e.report_inventory run_id) (sorted e.report_days)
          ++ session_statuses e.expected_sessions reports.rows (day_of started_at) run_id
          ++ price_statuses e.pricing_expected_models e.pricing_existing_models
              (priced_models prices.pricing_by_day) prices.failures reconciliation.affected_days
              run_id;
      reconciliation = reconciliation;
      contract_drift = drift;
      resolved_payload_drift =
          select (is_resolved version domains (active_drift version drift)) e.prior_payload_drift;
      rows_in =
          sum_of (λ payload. length payload.entries) (values daily_models)
          + length reports.rows
          + length e.graph_plan.graph.contributions;
      drift_fatal = false;
    }
