-- ===== src/Tokens.antt =====
-- Token preservation before publication: `preserve_daily_tokens` of
-- src/usagebassoon/storage_model.py, with the rows of the table `daily_stats` that it reads. A
-- token count of a stored row may be null; those of an incoming row are numbers, as
-- `_daily_stats_rows` of src/usagebassoon/normalizer.py writes them.
pub mod Maxima
mod Tests
use usagebassoon.Prelude.{
  ℕ, ◌+◌, max, String, Bool, true, false, Option, none, some, List, [], ◌∷◌, not, ◌==◌, leb,
  or_else, if◌then◌else◌, Dict, lookup, insert, string_eq, nat_eq, pair_eq, triple_eq,
  string_at_most,
}
use usagebassoon.Usage.{Day, Time, Decimal}

-- The columns of `TOKEN_COMPONENTS`.
pub record Tokens (A : Type 0) : Type 0 where
  pub input_tokens : A
  pub output_tokens : A
  pub cache_read : A
  pub cache_write : A
  pub reasoning : A

-- `STATE_KEYS["daily_stats"]`: source_id, day, client, then session_id and model.
abbrev pub DailyKey : Type 0
DailyKey = (String × ℕ × String) × (String × String)

-- The columns that preservation only carries along.
pub record DailyMetadata : Type 0 where
  pub provider : Option String
  pub message_count : ℕ
  pub tokscale_cost_usd : Decimal
  pub perf_duration_ms : Option ℕ
  pub perf_timed_tokens : Option ℕ
  pub perf_sample_count : Option ℕ
  pub perf_token_coverage : Option Decimal
  pub tokscale_ms_per_1k_tokens : Option Decimal

pub record DailyRow (A : Type 0) : Type 0 where
  pub event_id : String
  pub row_key : DailyKey
  pub tokens : Tokens A
  pub total_tokens : ℕ
  pub metadata : DailyMetadata
  pub collected_at : Time

abbrev pub Incoming : Type 0
Incoming = DailyRow ℕ

abbrev pub Stored : Type 0
Stored = DailyRow (Option ℕ)

-- The sum over `TOKEN_COMPONENTS`.
abbrev pub token_sum : Tokens ℕ → ℕ
token_sum t = t.input_tokens + t.output_tokens + t.cache_read + t.cache_write + t.reasoning

-- `order <= previous_order` on (collected_at, total_tokens, event_id)
pub is_stale : Incoming → Stored → Bool
is_stale row previous =
    if row.collected_at == previous.collected_at
    then if row.total_tokens == previous.total_tokens
      then string_at_most row.event_id previous.event_id
      else leb row.total_tokens previous.total_tokens
    else leb row.collected_at previous.collected_at

-- `max(row[field], previous[field] or 0)` for every component
pub max_tokens : Tokens ℕ → Tokens (Option ℕ) → Tokens ℕ
max_tokens row previous = record {
  input_tokens = max row.input_tokens (or_else previous.input_tokens 0);
  output_tokens = max row.output_tokens (or_else previous.output_tokens 0);
  cache_read = max row.cache_read (or_else previous.cache_read 0);
  cache_write = max row.cache_write (or_else previous.cache_write 0);
  reasoning = max row.reasoning (or_else previous.reasoning 0);
}

-- The row as the loop changes it.
pub raised_row : Incoming → Stored → Incoming
raised_row row previous =
    let tokens = max_tokens row.tokens previous.tokens in
    record row {
      tokens = tokens;
      total_tokens = max (max previous.total_tokens row.total_tokens) (token_sum tokens);
    }

-- One round of the loop: `none` is the `continue` that drops the row.
pub preserve_row : Option Stored → Incoming → Option Incoming
preserve_row none row = some row
preserve_row (some previous) row =
    if is_stale row previous then none else some (raised_row row previous)

-- `{key: row for row in prior_rows}`: a later row of the same key replaces an earlier one.
pub prior_rows : List Stored → Dict DailyKey Stored → Dict DailyKey Stored
prior_rows [] prior = prior
prior_rows (row ∷ rows) prior = prior_rows rows (insert row.row_key row prior)

pub preserve_rows : Dict DailyKey Stored → List Incoming → List Incoming
preserve_rows prior [] = []
preserve_rows prior (row ∷ rows) =
    let rest = preserve_rows prior rows in
    elim (preserve_row (lookup row.row_key prior) row) [ none ↦ rest | some kept ↦ kept ∷ rest ]

pub preserve_daily_tokens : List Incoming → List Stored → List Incoming
unfolding preserve_rows
preserve_daily_tokens incoming current = preserve_rows (prior_rows current []) incoming
