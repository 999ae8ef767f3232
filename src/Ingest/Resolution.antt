-- ===== src/Ingest/Resolution.antt =====
-- What `build_collection_bundle` of src/usagebassoon/ingest.py publishes and what it resolves.
use usagebassoon.Prelude.{
  String, Bool, true, false, List, [], ◌∷◌, ◌&&◌, ◌||◌, not, is_empty, any, select, All, All-imp,
  All-select, All-kept, All-both, Bool-cases, Dict, contains, contains-difference, difference,
  contains-sorted, map, string_eq, nat_eq, pair_eq, triple_eq, pair_ord, string_ord, ◌≡◌, sym, ◌∙◌,
  inl, inr, arith,
}
use usagebassoon.Usage.{Day, Time, DailyModelsPayload}
use usagebassoon.Contract.Diff.{PayloadContract}
use usagebassoon.Reconcile.{
  ReconciliationIdentity, ReconciliationResult, reconcile_all, stats_of, has_duplicates,
}
use usagebassoon.Reconcile.Days.{repeats, reconcile_all-unsafe}
use usagebassoon.Reconcile.Issues.{reconcile_all-resolved}
use usagebassoon.Ingest.Plan.{Validators}
use usagebassoon.Ingest.Statuses.{identity_of, is_models_check, resolve_issues}
use usagebassoon.Ingest.Bundle.{
  drift_identity, active_drift, is_safe, is_resolved, IngestEvidence, CollectionBundle,
  RawCollection, build_collection_bundle,
}

-- A payload that repeats a row makes its own day unsafe.
repeats-own :
    (day : Day) (payload : DailyModelsPayload) (rest : Dict Day DailyModelsPayload)
    → any (repeats day) ((day, payload) ∷ rest)
      ≡ (has_duplicates (stats_of payload) || any (repeats day) rest)
repeats-own day payload rest = ground (arith, nat_eq.beq_iff day day)

abbrev IsCounted : Dict Day DailyModelsPayload → Day × DailyModelsPayload → Type 0
IsCounted daily (day, payload) =
    any (repeats day) daily ≡ false → has_duplicates (stats_of payload) ≡ false

All-repeats : (daily : Dict Day DailyModelsPayload) → All (IsCounted daily) daily
All-repeats [] = tt
All-repeats ((day, payload) ∷ rest) = (
  λ h. ground (arith, repeats-own day payload rest),
  All-imp (λ entry ih h. ih (ground arith)) rest (All-repeats rest),
)

-- Every published day of daily models has no repeated client, session and model.
abbrev pub HasNoRepeats : Day × DailyModelsPayload → Type 0
HasNoRepeats (day, payload) = has_duplicates (stats_of payload) ≡ false

safe-HasNoRepeats :
    (daily : Dict Day DailyModelsPayload)
    → All HasNoRepeats (select (is_safe (reconcile_all daily).unsafe_days) daily)
safe-HasNoRepeats daily =
    let safe = is_safe (reconcile_all daily).unsafe_days in
    All-imp (λ entry p. p.1 (sym (reconcile_all-unsafe entry.0 daily).0 ∙ ground (arith, p.0)))
      (select safe daily)
      (All-both (λ entry. safe entry ≡ true) (IsCounted daily) (select safe daily)
        (All-select safe daily) (All-kept (IsCounted daily) safe daily (All-repeats daily)))

module _ (no_models : Bool) (pending : List Day) (failures : Dict Day String)
    (prior : List ReconciliationIdentity) where
  abbrev resolution : ReconciliationResult → ReconciliationResult
  resolution = resolve_issues no_models pending failures prior

  resolve_issues-unsafe : (r : ReconciliationResult) → (resolution r).unsafe_days ≡ r.unsafe_days
  unfolding resolve_issues
  resolve_issues-unsafe r = ground arith

  contains-select_models :
      (xs : List ReconciliationIdentity) (i : ReconciliationIdentity)
      → contains (select is_models_check xs) i ≡ true
      → contains xs i ≡ true
  unfolding contains
  contains-select_models [] i h = h
  contains-select_models (x ∷ xs) i h = ground (arith, contains-select_models xs i)

  resolve_issues-resolved :
      (r : ReconciliationResult) (i : ReconciliationIdentity)
      → r.resolved ≡ []
      → contains (resolution r).resolved i ≡ true
      → (contains prior i ≡ true)
        × (contains (map identity_of (resolution r).issues) i ≡ false)
        × (is_empty pending ≡ true)
        × (is_empty failures ≡ true)
  unfolding resolve_issues contains
  resolve_issues-resolved r i nothing =
      elim (Bool-cases (not no_models && (is_empty pending && is_empty failures))) [
        | inl clean ↦ rw clean (λ h.
            let active = map identity_of r.issues in
            let open_before = difference prior active in
            let kept =
              contains-select_models open_before i
                (sym (contains-sorted (select is_models_check open_before) i) ∙ h) in
            ground (arith, kept, contains-difference prior active i, clean))
        | inr unclean ↦ rw (unclean, nothing) (λ h. ground arith)
      ]

-- The bundle of a collection.
module _ (v : Validators) (reports prices : PayloadContract) (raw : RawCollection)
    (run_id source_id : String) (start finish : Time) (e : IngestEvidence) where
  abbrev bundle : CollectionBundle
  bundle = build_collection_bundle v reports prices raw run_id source_id start finish e

  -- No published day of daily models repeats a client, session and model.
  pub daily_models-HasNoRepeats : All HasNoRepeats bundle.daily_models
  unfolding build_collection_bundle
  daily_models-HasNoRepeats =
      rw resolve_issues-unsafe (safe-HasNoRepeats e.models_plan.daily_models)

  -- An issue that a run resolves was open before, is not found again by the run, and is resolved
  -- only in a run without a failed day of daily models.
  reconciliation-resolved :
      (i : ReconciliationIdentity)
      → contains bundle.reconciliation.resolved i ≡ true
      → (contains e.prior_reconciliation_issues i ≡ true)
        × (contains (map identity_of bundle.reconciliation.issues) i ≡ false)
        × (is_empty e.models_failures ≡ true)
  unfolding build_collection_bundle
  reconciliation-resolved i h =
      let r =
        resolve_issues-resolved _ _ _ _ (reconcile_all e.models_plan.daily_models) i
          (reconcile_all-resolved e.models_plan.daily_models) h in
      (r.0, r.1, r.3)

  -- A drift event that a run resolves was open before, belongs to the version that the run saw, and
  -- is not among the drift events of the run.
  resolved_payload_drift-absent :
      All
        (λ state.
          (state.tokscale_ver ≡ e.graph_plan.graph.version)
          × (contains
                (active_drift e.graph_plan.graph.version bundle.contract_drift)
                (drift_identity state)
              ≡ false))
        bundle.resolved_payload_drift
  unfolding build_collection_bundle
  resolved_payload_drift-absent =
      All-imp
        (λ state p.
          ground (arith, p, string_eq.beq_iff state.tokscale_ver e.graph_plan.graph.version))
        _ (All-select (is_resolved _ _ _) e.prior_payload_drift)
