-- ===== src/Persistence/Tests.antt =====
-- Runs of the retry loop and of the batch of src/usagebassoon/persistence.py.
use usagebassoon.Prelude.{ℕ, zero, suc, ◌+◌, ◌<◌, true, some, [], ◌∷◌, ◌++◌, ◌≡◌, refl, arith, ok}
use usagebassoon.Ingest.Tests.{two_day_bundle}
use usagebassoon.Normalizer.Facts.{session_rows, daily_stats_rows, price_version_rows}
use usagebassoon.Normalizer.Diagnostics.{ledger_rows, issue_rows, drift_rows}
use usagebassoon.Normalizer.Tables.{
  sessions, daily_stats, price_versions, reconciliation_issues, payload_drift_events,
  collection_ledger, when_rows, normalize,
}
use usagebassoon.Persistence.{
  PersistenceBatch, prepare_batch, Attempt, persisted, timed_out, backend_failed, published,
  retryable, attempts_from,
}
use usagebassoon.Persistence.Attempts.{IsBounded, attempts_from-IsBounded, attempts_from-published}
use usagebassoon.Persistence.Batches.{prepare_batch-normalize}

-- A timeout, a conflict, then a result.
abbrev third_time : ℕ → Attempt ℕ
third_time zero = timed_out
third_time (suc zero) = backend_failed (some true)
third_time (suc (suc n)) = persisted 5

-- A wait that is always cut to nothing.
abbrev no_jitter : ℕ → ℕ → ℕ
no_jitter attempt maximum = 0

delays-of-third :
    (attempts_from third_time (λ attempt maximum. maximum) 1000 4 0).delays ≡ 1000 ∷ 2000 ∷ []
unfolding attempts_from
delays-of-third = refl

attempts_from-IsBounded_example :
    IsBounded third_time no_jitter 1000 4 0 (attempts_from third_time no_jitter 1000 4 0)
attempts_from-IsBounded_example =
    attempts_from-IsBounded third_time no_jitter 1000 (λ attempt maximum. omega arith) 3 0

third_time-retryable : (k : ℕ) → k < 2 → retryable (third_time (k + 0)) ≡ true
unfolding retryable
third_time-retryable zero h = refl
third_time-retryable (suc zero) h = refl
third_time-retryable (suc (suc k)) h = ground arith

attempts_from-published_example :
    let r = attempts_from third_time no_jitter 1000 4 0 in
    (r.ending ≡ published 5) × (r.attempts ≡ 3)
attempts_from-published_example =
    attempts_from-published third_time no_jitter 1000 5 2 4 0 (omega arith) refl
      third_time-retryable

prepare_batch-normalize_example :
    (batch : PersistenceBatch) × (prepare_batch (normalize two_day_bundle) ≡ ok batch)
    × (batch.run_id ≡ two_day_bundle.run_id)
    × (batch.collection_ledger ≡ collection_ledger (ledger_rows two_day_bundle))
    × (batch.current_state
        ≡ when_rows "sessions" sessions (
            session_rows two_day_bundle.report_rows two_day_bundle.finished_at
              two_day_bundle.source_id two_day_bundle.started_at)
          ++ when_rows "daily_stats" daily_stats (
              daily_stats_rows two_day_bundle.daily_models two_day_bundle.started_at
                two_day_bundle.source_id)
          ++ when_rows "price_versions" price_versions (
              price_version_rows two_day_bundle.pricing_by_day two_day_bundle.source_id
                two_day_bundle.started_at))
    × (batch.append_only
        ≡ when_rows "payload_drift_events" payload_drift_events
            (drift_rows two_day_bundle two_day_bundle.finished_at)
          ++ when_rows "reconciliation_issues" reconciliation_issues
              (issue_rows two_day_bundle two_day_bundle.finished_at))
prepare_batch-normalize_example = prepare_batch-normalize two_day_bundle
