-- ===== src/Orchestrator/Tests.antt =====
-- Runs of the selections of src/usagebassoon/orchestrator.py.
use usagebassoon.Prelude.{
  arith, ℕ, ◌≤◌, String, Bool, true, false, none, some, List, [], ◌∷◌, keys, ◌||◌, ◌==◌, ◌&&◌, leb,
  All, contains, ok, err, nat_eq, string_eq, pair_eq, distinct_keys, lookup, ◌≡◌, ◌≢◌, refl, any,
  if◌then◌else◌, Dict,
}
use usagebassoon.Usage.{Contribution}
use usagebassoon.Ingest.Statuses.{IngestStatus}
use usagebassoon.Orchestrator.{Statuses, refresh_range, reversed_bounds, select_days}
use usagebassoon.Orchestrator.Requests.{ModelsByDay, models_on}
use usagebassoon.Contract.Json.{Json, object, end}
use usagebassoon.CustomPricing.{TokscaleProfile, Price, initial_state}
use usagebassoon.Collector.{Answer, runtime_error}
use usagebassoon.Orchestrator.Prices.{existing_prices, collect_prices, collect_prices-anywhere}
use usagebassoon.Orchestrator.Days.{select_days-retries}

abbrev status_of : String → IngestStatus
status_of status = record {
  day = 2;
  domain = "models";
  status = status;
  expected_count = some 1;
  succeeded_count = some 0;
  run_id = "run";
  failure_code = none;
}

abbrev statuses : Statuses
statuses = ((2, "models"), status_of "partial") ∷ ((3, "models"), status_of "complete") ∷ []

abbrev quiet_day : Contribution
quiet_day = record { date = 3; intensity = 0; active_time_ms = 0; clients = [] }

-- Day 2 is retried, day 3 is complete and old, days 4 to 6 are the overlap and day 9 is today.
daily_days-of-statuses :
    (select_days 9 statuses (3 ∷ 4 ∷ 5 ∷ 6 ∷ 9 ∷ []) [] [] none).daily_days ≡ 2 ∷ 4 ∷ 5 ∷ 6 ∷ 9 ∷ []
unfolding select_days usagebassoon.Prelude.sorted usagebassoon.Prelude.to_set
    usagebassoon.Prelude.add contains
daily_days-of-statuses = refl

range-reversed : refresh_range true (some 8) (some 7) 9 ≡ err reversed_bounds
unfolding refresh_range
range-reversed = refl

statuses-distinct : distinct_keys statuses ≡ true
unfolding distinct_keys contains
statuses-distinct = refl

day_two-partial : lookup (2, "models") statuses ≡ some (status_of "partial")
unfolding lookup
day_two-partial = refl

partial-open : (status_of "partial").status ≢ "complete"
partial-open same = ground (arith, string_eq.beq_iff "partial" "complete")

select_days-retries_example :
    contains (select_days 9 statuses (3 ∷ []) [] [] none).daily_days 2 ≡ true
select_days-retries_example =
    select_days-retries 9 statuses (3 ∷ []) [] [] 2 (status_of "partial") statuses-distinct
      day_two-partial partial-open

range-accepted : refresh_range true (some 2) (some 4) 9 ≡ ok (some (some 2, 4))
unfolding refresh_range
range-accepted = refl

abbrev only_haiku : List String
only_haiku = "haiku" ∷ []

abbrev one_failure : ModelsByDay
one_failure = (9, "opus" ∷ []) ∷ []

opus-failed :
    contains (models_on 9 ((9, "haiku" ∷ []) ∷ [])) "opus"
      || contains (models_on 9 one_failure) "opus"
      || (nat_eq.beq 9 9
          && (contains only_haiku "opus" && contains (models_on 9 one_failure) "opus"))
    ≡ true
unfolding contains lookup
opus-failed = refl

-- The price of one model cannot be fetched.
abbrev ask_price : String → Answer
ask_price model = if model == "haiku" then err runtime_error else ok (object end)

abbrev read_price : Json → Price
read_price json = record { source = none; document = "" }

-- No transition is under way.
abbrev steady : TokscaleProfile
steady = record {
  target = "warehouse";
  custom_present = false;
  state = initial_state;
  refresh_models = [];
  ignored_models = [];
}

abbrev both_models : List String
both_models = "opus" ∷ "haiku" ∷ []

abbrev stored_prices : ModelsByDay
stored_prices = (8, "haiku" ∷ []) ∷ []

haiku-needed : contains both_models "haiku" ≡ true
unfolding contains
haiku-needed = refl

haiku-missing : (i : ℕ) → contains (models_on 9 (existing_prices [] stored_prices)) "haiku" ≡ false
unfolding contains lookup existing_prices
haiku-missing i = refl

collect_prices-anywhere_example :
    any
      (λ entry. contains entry.1 "haiku")
      (collect_prices ask_price (λ i. (9, 9)) read_price steady 9 both_models stored_prices)
    ≡ true
collect_prices-anywhere_example =
    collect_prices-anywhere ask_price (λ i. (9, 9)) read_price steady 9 both_models stored_prices
      "haiku" haiku-needed haiku-missing
