-- ===== src/Tokens/Tests.antt =====
-- Runs of `preserve_daily_tokens` of src/usagebassoon/storage_model.py on a row whose stored
-- input count is larger.
use usagebassoon.Prelude.{ℕ, String, Option, none, some, List, [], ◌∷◌, ◌+◌, map, All, ◌≡◌, refl}
use usagebassoon.Tokens.{
  Tokens, DailyKey, DailyMetadata, DailyRow, Incoming, Stored, prior_rows, preserve_daily_tokens,
}
use usagebassoon.Tokens.Maxima.{DominatesPrior, preserve_daily_tokens-Dominates}

abbrev daily_key : DailyKey
daily_key = (("source", 10, "claude"), ("s1", "opus"))

abbrev metadata : DailyMetadata
metadata = record {
  provider = none;
  message_count = 2;
  tokscale_cost_usd = 3;
  perf_duration_ms = none;
  perf_timed_tokens = none;
  perf_sample_count = none;
  perf_token_coverage = none;
  tokscale_ms_per_1k_tokens = none;
}

abbrev stored_row : Stored
stored_row = record {
  event_id = "e1";
  row_key = daily_key;
  tokens = record {
    input_tokens = some 9;
    output_tokens = some 1;
    cache_read = none;
    cache_write = some 0;
    reasoning = some 0;
  };
  total_tokens = 10;
  metadata = metadata;
  collected_at = 100;
}

abbrev incoming_row : ℕ → ℕ → Incoming
incoming_row input at = record {
  event_id = "e2";
  row_key = daily_key;
  tokens = record {
    input_tokens = input;
    output_tokens = 5;
    cache_read = 2;
    cache_write = 0;
    reasoning = 0;
  };
  total_tokens = input + 7;
  metadata = metadata;
  collected_at = at;
}

preserve_daily_tokens-of-newer :
    map
      (λ row. row.total_tokens)
      (preserve_daily_tokens (incoming_row 4 101 ∷ incoming_row 50 99 ∷ []) (stored_row ∷ []))
    ≡ 16 ∷ []
unfolding preserve_daily_tokens usagebassoon.Tokens.preserve_row usagebassoon.Prelude.lookup
    prior_rows usagebassoon.Prelude.insert usagebassoon.Tokens.is_stale
    usagebassoon.Tokens.raised_row usagebassoon.Tokens.max_tokens
preserve_daily_tokens-of-newer = refl

preserve_daily_tokens-Dominates_example :
    All
      (DominatesPrior (prior_rows (stored_row ∷ []) []))
      (preserve_daily_tokens (incoming_row 4 101 ∷ []) (stored_row ∷ []))
preserve_daily_tokens-Dominates_example =
    preserve_daily_tokens-Dominates (incoming_row 4 101 ∷ []) (stored_row ∷ [])
