-- ===== src/Persistence.antt =====
-- Publication of a run: `persist_run` and `persist_with_retries` of src/usagebassoon/persistence.py.
-- A backend is a parameter: what each attempt to open it and to persist the batch comes to. Delays
-- are milliseconds, and the random part of a delay is a parameter too.
pub mod Attempts
pub mod Batches
pub mod Planning
pub mod Tests
use usagebassoon.Prelude.{
  ℕ, zero, suc, ◌+◌, ◌*◌, ◌^◌, min, String, Bool, true, false, Option, none, some, List, [], ◌∷◌,
  ◌==◌, not, ◌||◌, map, nat_eq, if◌then◌else◌, is_empty, is_some, Dict, lookup, insert, keys,
  contains, difference, Result, ok, err, string_eq,
}
use usagebassoon.Tokens.{Incoming, Stored, preserve_daily_tokens}
use usagebassoon.Normalizer.Facts.{StoredUsage}
use usagebassoon.Normalizer.Tables.{Table, daily_stats, NormalizedBundle}

-- The keys of `CURRENT_STATE_TABLES`, in order, and `DEBUG_TABLES`.
abbrev current_state_tables : List String
current_state_tables = "sessions" ∷ "daily_stats" ∷ "price_versions" ∷ []

abbrev debug_tables : List String
debug_tables = "payload_drift_events" ∷ "reconciliation_issues" ∷ []

-- `PersistenceBatch` of src/usagebassoon/backends/base.py; the key columns go with the table's name.
pub record PersistenceBatch : Type 0 where
  pub run_id : String
  pub current_state : Dict String Table
  pub append_only : Dict String Table
  pub collection_ledger : Table

pub data PersistError : Type 0 where
  unsupported_tables : List String → PersistError
  no_ledger : PersistError

-- The tables of the bundle among those named.
pub present_tables : List String → Dict String Table → Dict String Table
present_tables [] tables = []
present_tables (name ∷ names) tables =
    let rest = present_tables names tables in
    elim (lookup name tables) [ none ↦ rest | some table ↦ (name, table) ∷ rest ]

-- `persist_run` up to the call of the backend.
pub prepare_batch : NormalizedBundle → Result PersistError PersistenceBatch
unfolding present_tables
prepare_batch bundle =
    let permitted =
      "sessions" ∷ "daily_stats" ∷ "price_versions" ∷ "payload_drift_events"
      ∷ "reconciliation_issues" ∷ "collection_ledger" ∷ [] in
    let unknown = difference (keys bundle.tables) permitted in
    if is_empty unknown
    then elim (lookup "collection_ledger" bundle.tables) [
      | none ↦ err no_ledger
      | some ledger ↦ ok (record {
        run_id = bundle.run_id;
        current_state = present_tables current_state_tables bundle.tables;
        append_only = present_tables debug_tables bundle.tables;
        collection_ledger = ledger;
      })
    ]
    else err (unsupported_tables unknown)

-- The daily table with the event ids that its rows were given, as `preserve_daily_tokens` reads it.
incoming_rows : List String → List StoredUsage → List Incoming
incoming_rows (event_id ∷ ids) (row ∷ rows) =
    record {
      event_id = event_id;
      row_key = ((row.source_id, row.day, row.client), (row.session_id, row.model));
      tokens = record {
        input_tokens = row.input_tokens;
        output_tokens = row.output_tokens;
        cache_read = row.cache_read;
        cache_write = row.cache_write;
        reasoning = row.reasoning;
      };
      total_tokens = row.total_tokens;
      metadata = record {
        provider = row.provider;
        message_count = row.message_count;
        tokscale_cost_usd = row.tokscale_cost_usd;
        perf_duration_ms = row.perf_duration_ms;
        perf_timed_tokens = row.perf_timed_tokens;
        perf_sample_count = row.perf_sample_count;
        perf_token_coverage = row.perf_token_coverage;
        tokscale_ms_per_1k_tokens = row.tokscale_ms_per_1k_tokens;
      };
      collected_at = row.collected_at;
    }
    ∷ incoming_rows ids rows
incoming_rows _ _ = []

-- What an attempt to open the backend and to persist the batch comes to.
pub data Attempt (A : Type 0) : Type 0 where
  persisted : A → Attempt A
  -- The operation's own timeout.
  timed_out : Attempt A
  -- An error of an open backend, with the backend's answer on whether a retry can help; none is
  -- an error of the question itself.
  backend_failed : Option Bool → Attempt A
  -- The backend did not open.
  open_failed : Attempt A

-- How the loop ends, the number of attempts it made and the delays it slept for.
pub data Ending (A : Type 0) : Type 0 where
  published : A → Ending A
  raised : Attempt A → Ending A
  exhausted : Ending A

pub record Retried (A : Type 0) : Type 0 where
  pub ending : Ending A
  pub attempts : ℕ
  pub delays : List ℕ

abbrev pub max_transaction_retry_ms : ℕ
max_transaction_retry_ms = 30000

-- `min(_MAX_TRANSACTION_RETRY_SECONDS, retry_initial_seconds * 2 ** (attempt - 1))`
abbrev pub maximum_delay : ℕ → ℕ → ℕ
maximum_delay initial_ms earlier = min max_transaction_retry_ms (initial_ms * 2 ^ earlier)

-- The `retryable` of the handler.
pub retryable : {A : Type 0} → Attempt A → Bool
retryable (persisted a) = false
retryable timed_out = true
retryable (backend_failed none) = false
retryable (backend_failed (some answer)) = answer
retryable open_failed = false

-- One round of the loop, given what the rounds after it come to: the last attempt raises its error.
pub after_attempt : {A : Type 0} → Attempt A → Bool → ℕ → ℕ → Retried A → Retried A
unfolding retryable
after_attempt (persisted a) ends delay made rest = record {
  ending = published a;
  attempts = made;
  delays = [];
}
after_attempt failure ends delay made rest =
    if not (retryable failure) || ends
    then record { ending = raised failure; attempts = made; delays = [] }
    else record rest { delays = delay ∷ rest.delays }

-- `attempt == attempts`, from the number of attempts that are left after this one.
abbrev is_last : ℕ → Bool
is_last zero = true
is_last (suc left) = false

-- The loop of `persist_with_retries` with the attempts that are left, after `earlier` attempts.
-- `jitter` is `random.uniform(0, maximum_delay)` after that attempt.
pub attempts_from : {A : Type 0} → (ℕ → Attempt A) → (ℕ → ℕ → ℕ) → ℕ → ℕ → ℕ → Retried A
unfolding after_attempt
attempts_from try jitter initial_ms zero earlier = record {
  ending = exhausted;
  attempts = earlier;
  delays = [];
}
attempts_from try jitter initial_ms (suc left) earlier =
    let rest = attempts_from try jitter initial_ms left (suc earlier) in
    after_attempt (try earlier) (is_last left) (jitter earlier (maximum_delay initial_ms earlier))
      (suc earlier) rest

abbrev stored_usage : Incoming → StoredUsage
stored_usage row = record {
  source_id = row.row_key.0.0;
  day = row.row_key.0.1;
  client = row.row_key.0.2;
  session_id = row.row_key.1.0;
  model = row.row_key.1.1;
  provider = row.metadata.provider;
  input_tokens = row.tokens.input_tokens;
  output_tokens = row.tokens.output_tokens;
  cache_read = row.tokens.cache_read;
  cache_write = row.tokens.cache_write;
  reasoning = row.tokens.reasoning;
  total_tokens = row.total_tokens;
  message_count = row.metadata.message_count;
  tokscale_cost_usd = row.metadata.tokscale_cost_usd;
  perf_duration_ms = row.metadata.perf_duration_ms;
  perf_timed_tokens = row.metadata.perf_timed_tokens;
  perf_sample_count = row.metadata.perf_sample_count;
  perf_token_coverage = row.metadata.perf_token_coverage;
  tokscale_ms_per_1k_tokens = row.metadata.tokscale_ms_per_1k_tokens;
  collected_at = row.collected_at;
}

-- The table of the daily facts with the maxima of the stored ones.
preserve_table : List String → List Stored → Table → Table
unfolding incoming_rows
preserve_table ids prior (daily_stats rows) =
    daily_stats (map stored_usage (preserve_daily_tokens (incoming_rows ids rows) prior))
preserve_table ids prior table = table

-- The bundle that `persist_with_retries` publishes.
prepare_bundle : List String → Option (List Stored) → NormalizedBundle → NormalizedBundle
unfolding preserve_table
prepare_bundle ids none bundle = bundle
prepare_bundle ids (some prior) bundle = elim (lookup "daily_stats" bundle.tables) [
  | none ↦ bundle
  | some table ↦ record bundle {
    tables = insert "daily_stats" (preserve_table ids prior table) bundle.tables;
  }
]

pub data Opening : Type 0 where
  opened open_timed_out open_refused : Opening

-- What a run meets at its destination at each attempt: whether it opens, what the backend makes of
-- a batch, and what it says on retrying after a refused bundle.
pub record Destination (A : Type 0) : Type 0 where
  pub open_backend : ℕ → Opening
  pub persist_batch : PersistenceBatch → ℕ → Attempt A
  pub is_retryable_error : PersistError → ℕ → Option Bool

-- The body of one attempt: open the backend, then `persist_run`.
run_attempt : {A : Type 0} → Destination A → NormalizedBundle → ℕ → Attempt A
unfolding prepare_batch
run_attempt destination bundle attempt = elim (destination.open_backend attempt) [
  | open_timed_out ↦ timed_out
  | open_refused ↦ open_failed
  | opened ↦ elim (prepare_batch bundle) [
    | ok batch ↦ destination.persist_batch batch attempt
    | err error ↦ backend_failed (destination.is_retryable_error error attempt)
  ]
]

-- `persist_with_retries`: the bundle is prepared once, and every attempt publishes the same one.
persist_with_retries :
    {A : Type 0}
    → ℕ
    → ℕ
    → (ℕ → ℕ → ℕ)
    → Destination A
    → List String
    → Option (List Stored)
    → NormalizedBundle
    → Retried A
unfolding prepare_bundle run_attempt attempts_from
persist_with_retries max_retries initial_ms jitter destination ids prior bundle =
    attempts_from (run_attempt destination (prepare_bundle ids prior bundle)) jitter initial_ms
      (suc max_retries) 0
