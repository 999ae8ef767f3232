-- ===== src/Normalizer/Laws.antt =====
-- What the tables of src/usagebassoon/normalizer.py hold.
use usagebassoon.Prelude.{
  ℕ, ◌+◌, String, List, [], ◌∷◌, ◌==◌, leb, length, sum_of, sum_of-insert-new,
  sum_of-insert-present, sum_of-map, sum_of-concat_map, sum_of-sort_by, sort_by, All, All-map,
  All-always, Option-cases, Bool-cases, Dict, lookup, values, map, string_eq, nat_eq, triple_eq,
  ◌≡◌, ◌≢◌, ◌⊎◌, ◌<◌, refl, ◌∙◌, inl, inr, arith,
}
use usagebassoon.Usage.{Day, Time, day_of, ModelStatsRow, DailyModelStatsRow, DailyModelsPayload}
use usagebassoon.Contract.Diff.{ContractDrift, drift_key}
use usagebassoon.Ingest.Statuses.{IngestStatus}
use usagebassoon.Ingest.Bundle.{CollectionBundle, PayloadDriftIdentity}
use usagebassoon.Normalizer.Facts.{StoredUsage, usage_row, by_first, daily_stats_rows}
use usagebassoon.Normalizer.Diagnostics.{
  LedgerRow, run_row, target_row, ledger_rows, DriftRow, DriftRows, new_drift, repeat_drift,
  observe_drift, observe_drifts,
}

-- The number of observations that the rows count.
abbrev pub observations : DriftRows → ℕ
observations rows = sum_of (λ row. row.observation_count) (values rows)

module _ (bundle : CollectionBundle) (at : Time) where
  observations-observe_drift :
      (rows : DriftRows) (drift : ContractDrift)
      → observations (observe_drift bundle at rows drift) ≡ observations rows + 1
  unfolding observe_drift new_drift repeat_drift
  observations-observe_drift rows drift =
      let identity : PayloadDriftIdentity = (drift.domain, bundle.graph.version, drift_key drift) in
      let count : DriftRow → ℕ = λ row. row.observation_count in
      elim (Option-cases (lookup identity rows)) [
        | inl absent ↦
            rw (absent, observe_drift)
              (sum_of-insert-new count identity (new_drift bundle at drift) rows absent)
        | inr (row, found) ↦
            rw (found, observe_drift)
              (omega (
                arith,
                sum_of-insert-present count identity (repeat_drift drift row) row rows found,
              ))
      ]

  -- Every drift event of a run is counted exactly once: the observations of the rows grow by the
  -- number of the events, however many of them share an identity.
  observe_drifts-conserves :
      (drifts : List ContractDrift) (rows : DriftRows)
      → observations (observe_drifts bundle at rows drifts) ≡ observations rows + length drifts
  unfolding observe_drifts
  observe_drifts-conserves [] rows = omega arith
  observe_drifts-conserves (drift ∷ drifts) rows = omega (
    arith,
    observe_drifts-conserves drifts (observe_drift bundle at rows drift),
    observations-observe_drift rows drift,
  )

-- The row does not call an open day of daily models complete.
abbrev LeavesOpen : Time → LedgerRow → Type 0
LeavesOpen start row =
    (row.domain ≢ "models") ⊎ (row.day < day_of start) ⊎ (row.status ≢ "complete")

target_row-LeavesOpen :
    (bundle : CollectionBundle) (target : IngestStatus)
    → LeavesOpen bundle.started_at (target_row bundle target)
unfolding target_row
target_row-LeavesOpen bundle target = elim (Bool-cases (target.domain == "models")) [
  | inr other ↦ inl (λ same. ground (arith, string_eq.beq_iff target.domain "models"))
  | inl models ↦ elim (Bool-cases (leb (day_of bundle.started_at) target.day)) [
    | inr closed ↦ inr (inl (ground (arith, closed)))
    | inl open_day ↦ inr (
        inr (λ done. ground (
          arith,
          string_eq.beq_iff target.status "complete",
          string_eq.beq_iff "provisional" "complete",
        )))
  ]
]

-- Every row of the ledger is on another domain than the daily models, or on a day that had ended
-- when the run started, or does not say `complete`.
ledger_rows-open :
    (bundle : CollectionBundle) → All (LeavesOpen bundle.started_at) (ledger_rows bundle)
unfolding ledger_rows run_row
ledger_rows-open bundle = (
  inl (λ same. ground (arith, string_eq.beq_iff "collection" "models")),
  All-map (LeavesOpen bundle.started_at) (target_row bundle) bundle.ingest_status
      (All-always (target_row-LeavesOpen bundle) bundle.ingest_status),
)

abbrev pub tokens : ModelStatsRow → ℕ
tokens row = row.input_tokens + row.output_tokens + row.cache_read + row.cache_write + row.reasoning

abbrev pub payload_tokens : Day × DailyModelsPayload → ℕ
payload_tokens (day, payload) = sum_of (λ row. tokens row.stats) payload.entries

abbrev pub total : StoredUsage → ℕ
total row = row.total_tokens

sum_of-usage_row :
    (source_id : String) (at : Time) (rows : List DailyModelStatsRow)
    → sum_of total (map (usage_row source_id at) rows) ≡ sum_of (λ row. tokens row.stats) rows
unfolding usage_row
sum_of-usage_row source_id at rows = sum_of-map total (usage_row source_id at) rows

sum_of-cong {ℓ} :
    {A : Type ℓ} (f g : A → ℕ) → ((x : A) → f x ≡ g x) → (xs : List A) → sum_of f xs ≡ sum_of g xs
sum_of-cong f g h [] = refl
sum_of-cong f g h (x ∷ xs) = omega (arith, h x, sum_of-cong f g h xs)

-- The token totals of the daily table add up to the tokens of the payloads: no row is lost or
-- counted twice when the days are put in order.
daily_stats_rows-tokens :
    (daily : Dict Day DailyModelsPayload) (at : Time) (source_id : String)
    → sum_of total (daily_stats_rows daily at source_id) ≡ sum_of payload_tokens daily
unfolding daily_stats_rows
daily_stats_rows-tokens daily at source_id =
    let days = sort_by by_first daily in
    sum_of-concat_map total (λ entry. map (usage_row source_id at) entry.1.entries) days
    ∙ sum_of-cong (λ entry. sum_of total (map (usage_row source_id at) entry.1.entries))
        payload_tokens (λ entry. sum_of-usage_row source_id at entry.1.entries) days
    ∙ sum_of-sort_by payload_tokens by_first daily
