-- ===== src/Ingest/Failures.antt =====
-- A price that could not be fetched stays in the retry ledger of src/usagebassoon/ingest.py.
use usagebassoon.Prelude.{
  ℕ, String, Bool, true, false, Option, none, some, List, [], ◌∷◌, ◌==◌, or_else, if◌then◌else◌,
  is_empty, is_some, length, All, All-map, All-always, Bool-cases, Dict, lookup, insert,
  lookup-insert, keys, contains, difference, to_set, All-append, inter, union, sort_by, sorted, map,
  string_eq, nat_eq, pair_eq, nat_ord, ◌≡◌, ◌≢◌, ◌⊎◌, refl, inl, inr, arith,
}
use usagebassoon.Usage.{Day, Time, day_of, SessionRow}
use usagebassoon.Contract.Diff.{PayloadContract}
use usagebassoon.Reconcile.{reconcile_all}
use usagebassoon.Ingest.Plan.{Validators}
use usagebassoon.Ingest.Payloads.{
  PricePart, RawPrices, parse_day_prices, parse_prices, price_fetch_failures,
}
use usagebassoon.Ingest.Statuses.{
  IngestStatus, SessionIdentity, ledger_row, models_status, failed_status, models_statuses,
  by_failed_day, session_identity, report_status, session_statuses, price_outcome, price_status,
  price_statuses, by_priced_day,
}
use usagebassoon.Ingest.Bundle.{IngestEvidence, RawCollection, priced_models}
use usagebassoon.Ingest.Ledger.{bundle, All-ledger, report_part, price_part, affected}

-- A failure of a day that is recorded stays recorded, though its code may change.
fetch-kept :
    (fetch : Dict Day (List String)) (failures : Dict Day String) (d : Day)
    → is_some (lookup d failures) ≡ true
    → is_some (lookup d (price_fetch_failures fetch failures)) ≡ true
unfolding price_fetch_failures
fetch-kept [] failures d h = h
fetch-kept ((day, models) ∷ fetch) failures d h =
    fetch-kept fetch (if is_empty models then failures else insert day "fetch" failures) d
      (ground (arith, lookup-insert day d "fetch" failures))

fetch-recorded :
    (fetch : Dict Day (List String)) (failures : Dict Day String) (d : Day)
    → is_empty (or_else (lookup d fetch) []) ≡ false
    → is_some (lookup d (price_fetch_failures fetch failures)) ≡ true
unfolding price_fetch_failures lookup
fetch-recorded [] failures d h = ground arith
fetch-recorded ((day, models) ∷ fetch) failures d h = elim (Bool-cases (day == d)) [
  | inl same ↦
      fetch-kept fetch (if is_empty models then failures else insert day "fetch" failures) d
        (ground (arith, lookup-insert day d "fetch" failures, same, h))
  | inr other ↦
      fetch-recorded fetch (if is_empty models then failures else insert day "fetch" failures) d
        (ground (arith, other, h))
]

day-kept :
    (code : Option String) (failures : Dict Day String) (day d : Day)
    → is_some (lookup d failures) ≡ true
    → is_some (lookup d (elim code [ none ↦ failures | some c ↦ insert day c failures ])) ≡ true
day-kept none failures day d h = h
day-kept (some c) failures day d h = ground (arith, lookup-insert day d c failures, h)

parse-kept :
    (v : Validators) (contract : PayloadContract) (raw : RawPrices) (p : PricePart) (d : Day)
    → is_some (lookup d p.failures) ≡ true
    → is_some (lookup d (parse_prices v contract p raw).failures) ≡ true
unfolding parse_prices
parse-kept v contract [] p d h = h
parse-kept v contract ((day, prices) ∷ raw) p d h =
    let found =
      parse_day_prices v contract (record { parsed = []; failure = none; events = p.events })
        prices in
    parse-kept v contract raw
      (record {
        pricing_by_day =
            if is_empty found.parsed
            then p.pricing_by_day
            else insert day found.parsed p.pricing_by_day;
        failures = elim found.failure [ none ↦ p.failures | some c ↦ insert day c p.failures ];
        events = found.events;
      })
      d (day-kept found.failure p.failures day d h)

price_outcome_fails :
    (expected succeeded : ℕ) (failure : Option String) (is_affected : Bool)
    → is_some failure ≡ true
    → ((price_outcome expected succeeded failure is_affected).0 == "complete") ≡ false
unfolding price_outcome
price_outcome_fails expected succeeded none is_affected h = ground arith
price_outcome_fails expected succeeded (some code) true h = refl
price_outcome_fails expected succeeded (some code) false h =
    elim (Bool-cases (succeeded == expected)) [
      | inl full ↦
          rw full (elim (Bool-cases (succeeded == 0)) [ inl e ↦ rw e refl | inr e ↦ rw e refl ])
      | inr short ↦
          rw short (elim (Bool-cases (succeeded == 0)) [ inl e ↦ rw e refl | inr e ↦ rw e refl ])
    ]

-- The row is on another domain than prices, or does not say complete, or no fetch failed on its day.
abbrev pub KeepsFailures : Dict Day (List String) → IngestStatus → Type 0
KeepsFailures fetch s =
    (s.domain ≢ "pricing")
    ⊎ (s.status ≢ "complete")
    ⊎ (is_empty (or_else (lookup s.day fetch) []) ≡ true)

models_status-KeepsFailures :
    (fetch : Dict Day (List String)) (affected_days : List Day) (run_id : String) (day : Day)
    → KeepsFailures fetch (models_status affected_days run_id day)
unfolding models_status ledger_row
models_status-KeepsFailures fetch affected_days run_id day =
    elim (Bool-cases (contains affected_days day)) [
      | inl found ↦ rw found (inl (λ same. ground (arith, string_eq.beq_iff "models" "pricing")))
      | inr absent ↦ rw absent (inl (λ same. ground (arith, string_eq.beq_iff "models" "pricing")))
    ]

failed_status-KeepsFailures :
    (fetch : Dict Day (List String)) (run_id : String) (entry : Day × String)
    → KeepsFailures fetch (failed_status run_id entry)
unfolding failed_status ledger_row
failed_status-KeepsFailures fetch run_id (day, failure) =
    inl (λ same. ground (arith, string_eq.beq_iff "models" "pricing"))

report_status-KeepsFailures :
    (fetch : Dict Day (List String)) (failures : Dict Day String) (inventory : Bool)
    (run_id : String) (day : Day)
    → KeepsFailures fetch (report_status failures inventory run_id day)
unfolding report_status ledger_row
report_status-KeepsFailures fetch failures true run_id day =
    inl (λ same. ground (arith, string_eq.beq_iff "report_inventory" "pricing"))
report_status-KeepsFailures fetch failures false run_id day =
    inl (λ same. ground (arith, string_eq.beq_iff "report" "pricing"))

session_statuses-KeepsFailures :
    (fetch : Dict Day (List String)) (expected : List SessionIdentity) (rows : List SessionRow)
    (day : Day) (run_id : String)
    → All (KeepsFailures fetch) (session_statuses expected rows day run_id)
unfolding session_statuses ledger_row
session_statuses-KeepsFailures fetch expected rows day run_id =
    elim (Bool-cases (is_empty expected)) [
      | inl nothing ↦ rw nothing tt
      | inr some_sessions ↦
          rw some_sessions
            (elim (Bool-cases
              (is_empty (difference expected (to_set (map session_identity rows))))) [
                | inl covered ↦ rw covered (
                  inl (λ same. ground (arith, string_eq.beq_iff "session_metadata" "pricing")),
                  tt,
                )
                | inr missing ↦ rw missing (
                  inl (λ same. ground (arith, string_eq.beq_iff "session_metadata" "pricing")),
                  tt,
                )
              ])
    ]

price_status-KeepsFailures :
    (fetch existing fetched : Dict Day (List String)) (failures : Dict Day String)
    (affected_days : List Day) (run_id : String)
    → ((d : Day)
        → is_empty (or_else (lookup d fetch) []) ≡ false
        → is_some (lookup d failures) ≡ true)
    → (entry : Day × List String)
    → KeepsFailures fetch (price_status existing fetched failures affected_days run_id entry)
unfolding price_status ledger_row
price_status-KeepsFailures fetch existing fetched failures affected_days run_id recorded
      (day, expected) =
    let covered = union (or_else (lookup day existing) []) (or_else (lookup day fetched) []) in
    let succeeded = length (inter expected covered) in
    let outcome =
      price_outcome (length expected) succeeded (lookup day failures)
        (contains affected_days day) in
    elim (Bool-cases (is_empty (or_else (lookup day fetch) []))) [
      | inl none_failed ↦ inr (inr none_failed)
      | inr failed ↦ inr (
          inl (λ done. ground (
            arith,
            string_eq.beq_iff outcome.0 "complete",
            done,
            price_outcome_fails (length expected) succeeded (lookup day failures)
                (contains affected_days day) (recorded day failed),
          )))
    ]

-- Every row of a bundle's ledger is on another domain than prices, or does not say `complete`, or
-- is about a day on which no price failed to be fetched.
pub ingest_status-KeepsFailures :
    (v : Validators) (reports prices : PayloadContract) (raw : RawCollection)
    (run_id source_id : String) (start finish : Time) (e : IngestEvidence)
    → All
        (KeepsFailures e.pricing_fetch_failures)
        (bundle v reports prices raw run_id source_id start finish e).ingest_status
unfolding models_statuses price_statuses
ingest_status-KeepsFailures v reports prices raw run_id source_id start finish e =
    let fetch = e.pricing_fetch_failures in
    let P = KeepsFailures fetch in
    let found = (reconcile_all e.models_plan.daily_models).affected_days in
    let fetched = sorted (keys e.models_plan.daily_models) in
    let failed = sort_by by_failed_day e.models_failures in
    let days = sorted e.report_days in
    let r = report_part v reports prices raw run_id source_id start finish e in
    let p = price_part v reports prices raw run_id source_id start finish e in
    let a = affected v reports prices raw run_id source_id start finish e in
    let by_day = sort_by by_priced_day e.pricing_expected_models in
    let status =
      price_status e.pricing_existing_models (priced_models p.pricing_by_day) p.failures a run_id in
    let recorded : (d : Day)
        → is_empty (or_else (lookup d fetch) []) ≡ false
        → is_some (lookup d p.failures) ≡ true =
      λ d h.
        parse-kept v prices raw.pricing_by_day
          (record { pricing_by_day = []; failures = price_fetch_failures fetch []; events = [] }) d
          (fetch-recorded fetch [] d h) in
    All-ledger v reports prices raw run_id source_id start finish e P
      (All-append P (map (models_status found run_id) fetched) (map (failed_status run_id) failed)
        (All-map P (models_status found run_id) fetched
          (All-always (models_status-KeepsFailures fetch found run_id) fetched))
        (All-map P (failed_status run_id) failed
          (All-always (failed_status-KeepsFailures fetch run_id) failed)))
      (All-map P (report_status r.failures e.report_inventory run_id) days
        (All-always (report_status-KeepsFailures fetch r.failures e.report_inventory run_id) days))
      (session_statuses-KeepsFailures fetch e.expected_sessions r.rows (day_of start) run_id)
      (All-map P status by_day (
        All-always
          (price_status-KeepsFailures fetch e.pricing_existing_models
            (priced_models p.pricing_by_day) p.failures a run_id recorded)
          by_day))
