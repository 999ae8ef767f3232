-- ===== src/Reconcile/Tests.antt =====
-- Runs of `reconcile_all` of src/usagebassoon/reconcile.py on two days, of which the second
-- declares a wrong total and repeats a row.
use usagebassoon.Prelude.{
  ℕ, String, Bool, true, false, Option, none, some, List, [], ◌∷◌, ◌&&◌, not, any, contains, Dict,
  All, nat_eq, ◌≡◌, ◌↔◌, refl, arith,
}
use usagebassoon.Usage.{Day, ModelStatsRow, ModelsPayload, DailyModelsPayload}
use usagebassoon.Reconcile.{reconcile_all, is_ok}
use usagebassoon.Reconcile.Days.{
  IsConsistent, DayIsConsistent, repeats, reconcile_all-affected, reconcile_all-unsafe,
}
use usagebassoon.Reconcile.Issues.{reconcile_all-ok}

abbrev pub stats : String → String → ℕ → ModelStatsRow
stats session model input = record {
  client = "claude";
  session_id = session;
  model = model;
  provider = none;
  merged_clients = [];
  input_tokens = input;
  output_tokens = 5;
  cache_read = 0;
  cache_write = 0;
  reasoning = 1;
  message_count = 2;
  tokscale_cost_usd = 3;
  tokscale_ms_per_1k_tokens = none;
  perf_duration_ms = none;
  perf_timed_tokens = none;
  perf_sample_count = none;
  perf_token_coverage = none;
}

abbrev totals_of : ℕ → ModelsPayload
totals_of input = record {
  group_by = "session";
  total_input = input;
  total_output = 10;
  total_cache_read = 0;
  total_cache_write = 0;
  total_messages = 4;
  total_cost = 6;
  processing_time_ms = none;
}

abbrev good_day : DailyModelsPayload
good_day = record {
  day = 10;
  entries =
      record { day = 10; stats = stats "s1" "opus" 7 }
      ∷ record { day = 10; stats = stats "s2" "opus" 8 }
      ∷ [];
  totals = totals_of 15;
}

abbrev bad_day : DailyModelsPayload
bad_day = record {
  day = 11;
  entries =
      record { day = 11; stats = stats "s1" "opus" 7 }
      ∷ record { day = 11; stats = stats "s1" "opus" 8 }
      ∷ [];
  totals = totals_of 16;
}

abbrev pub two_days : Dict Day DailyModelsPayload
two_days = (10, good_day) ∷ (11, bad_day) ∷ []

affected_days-of-two : contains (reconcile_all two_days).affected_days 11 ≡ true
unfolding reconcile_all contains usagebassoon.Prelude.add usagebassoon.Prelude.to_set
affected_days-of-two = refl

reconcile_all-affected_example :
    (contains (reconcile_all two_days).affected_days 10 ≡ false) ↔ DayIsConsistent 10 two_days
reconcile_all-affected_example = reconcile_all-affected 10 two_days

reconcile_all-unsafe_example :
    (contains (reconcile_all two_days).unsafe_days 11 ≡ any (repeats 11) two_days)
    × ((contains (reconcile_all two_days).unsafe_days 11
          && not (contains (reconcile_all two_days).affected_days 11))
        ≡ false)
reconcile_all-unsafe_example = reconcile_all-unsafe 11 two_days

reconcile_all-ok_example :
    (is_ok (reconcile_all two_days) ≡ true) ↔ All (λ entry. IsConsistent entry.1) two_days
reconcile_all-ok_example = reconcile_all-ok two_days
