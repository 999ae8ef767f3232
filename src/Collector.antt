-- ===== src/Collector.antt =====
-- The fetch loops of src/usagebassoon/collector.py. What a tokscale command answers is an argument:
-- decoded JSON, or the class of the exception that `_json_command` raises.
pub mod DailyModels
pub mod Pricing
pub mod Reports
mod Tests
use usagebassoon.Prelude.{
  ℕ, suc, ◌+◌, ◌-◌, String, Bool, true, false, Option, none, some, List, [], ◌∷◌, ◌++◌, ◌&&◌, ◌||◌,
  ◌==◌, nat_eq, string_eq, pair_eq, nat_ord, string_ord, leb, ltb, any, contains, union, sorted,
  to_set, is_empty, Dict, lookup, insert, keys, or_else, if◌then◌else◌, Result, ok, err, ◌>>=◌,
  sort_by,
}
use usagebassoon.Usage.{Day}
use usagebassoon.Contract.Json.{Json, object, array}
use usagebassoon.Orchestrator.Requests.{ModelsByDay, models_on}

pub data CommandError : Type 0 where
  os_error runtime_error value_error other_error : CommandError

abbrev pub Answer : Type 0
Answer = Result CommandError Json

-- `_object`
pub require_object : Json → Answer
require_object (object fields) = ok (object fields)
require_object _ = err runtime_error

-- `_array`
pub require_array : Json → Answer
require_array (array items) = ok (array items)
require_array _ = err runtime_error

-- `except (OSError, RuntimeError, ValueError)`
is_tracked : CommandError → Bool
is_tracked other_error = false
is_tracked _ = true

-- The payloads and the failures that `_fetch_daily_models` collects.
pub record DailyFetch : Type 0 where
  pub payloads : Dict Day Json
  pub failures : Dict Day String

-- `_fetch_daily_models`, where the failures are tracked.
pub fetch_daily_models : (Day → Answer) → List Day → DailyFetch → Result CommandError DailyFetch
unfolding require_object is_tracked
fetch_daily_models ask [] fetched = ok fetched
fetch_daily_models ask (day ∷ days) fetched = elim (ask day >>= require_object) [
  | ok payload ↦
      fetch_daily_models ask days
        (record fetched { payloads = insert day payload fetched.payloads })
  | err e ↦
      if is_tracked e
      then fetch_daily_models ask days
          (record fetched { failures = insert day "fetch" fetched.failures })
      else err e
]

-- What `_fetch_pricing` keeps between two requests.
pub record PriceFetch : Type 0 where
  pub prices : Dict Day (Dict String Json)
  pub failures : ModelsByDay
  pub attempted : List (Day × String)

-- The day on which a price is requested, and the day on which its answer is there.
abbrev pub Clock : Type 0
Clock = Day × Day

-- One round of the inner loop.
pub fetch_price : (String → Answer) → ModelsByDay → Clock → String → PriceFetch → PriceFetch
unfolding require_object
fetch_price ask existing (day, observed) model fetched =
    if contains fetched.attempted (day, model) || contains (models_on day existing) model
    then fetched
    else let attempted = (day, model) ∷ fetched.attempted in
      elim (ask model >>= require_object) [
        | err e ↦ record fetched {
          failures =
              insert day (union (models_on day fetched.failures) (model ∷ [])) fetched.failures;
          attempted = attempted;
        }
        | ok price ↦ record fetched {
          prices =
              insert observed (insert model price (or_else (lookup observed fetched.prices) []))
                fetched.prices;
          attempted = (observed, model) ∷ attempted;
        }
      ]

-- The inner loop: the requests of one day. `clock` is indexed by the requests before.
fetch_models :
    (String → Answer) → ModelsByDay → (ℕ → Clock) → ℕ → List String → PriceFetch → PriceFetch
unfolding fetch_price
fetch_models ask existing clock index [] fetched = fetched
fetch_models ask existing clock index (model ∷ models) fetched =
    fetch_models ask existing clock (suc index) models
      (fetch_price ask existing (clock index) model fetched)

-- Both loops of `_fetch_pricing` request in the order of these.
price_sequence : ModelsByDay → List String
price_sequence [] = []
price_sequence ((day, models) ∷ requests) = sorted models ++ price_sequence requests

-- `sorted(models_by_day.items())`: the days are distinct, so they decide.
by_day : ModelsByDay → ModelsByDay
by_day = sort_by (λ a b. leb a.0 b.0)

-- `_fetch_pricing`
pub fetch_pricing : (String → Answer) → ModelsByDay → (ℕ → Clock) → ModelsByDay → PriceFetch
unfolding fetch_models price_sequence by_day
fetch_pricing ask existing clock requests =
    fetch_models ask existing clock 0 (price_sequence (by_day requests))
      (record { prices = []; failures = []; attempted = [] })

-- The bounds of a report on the days of a group: a day is added at each end, within the calendar.
pub report_bounds : Day → Day → Day → Day × Day
report_bounds last_day first last = (first - 1, if ltb last last_day then suc last else last)

-- `date.min`
abbrev first_date : Day
first_date = 0

last_day_of : Day → List Day → Day
last_day_of day [] = day
last_day_of day (d ∷ days) = last_day_of d days

-- The days that are requested together.
pub report_group : Bool → List Day → List Day
report_group true days = first_date ∷ []
report_group false days = sorted (to_set days)

-- The reports and the failures that `_fetch_reports` returns.
pub record ReportFetch : Type 0 where
  pub reports : Dict Day Json
  pub failures : List Day

all_reports : Json → List Day → Dict Day Json
all_reports report [] = []
all_reports report (day ∷ days) = (day, report) ∷ all_reports report days

-- The one request of `_fetch_reports`, for the days of its group.
fetch_group : (Option (Day × Day) → Answer) → Day → Bool → List Day → ReportFetch
unfolding report_bounds last_day_of all_reports require_array
fetch_group ask last_day all_history [] = record { reports = []; failures = [] }
fetch_group ask last_day all_history (day ∷ rest) =
    let bounds =
      if all_history then none else some (report_bounds last_day day (last_day_of day rest)) in
    elim (ask bounds >>= require_array) [
      | err e ↦ record { reports = []; failures = day ∷ rest }
      | ok report ↦ record { reports = all_reports report (day ∷ rest); failures = [] }
    ]

-- `_fetch_reports`; `ask` has the bounds, or none for the whole history.
pub fetch_reports : (Option (Day × Day) → Answer) → Day → Bool → List Day → ReportFetch
unfolding fetch_group report_group
fetch_reports ask last_day all_history days =
    fetch_group ask last_day all_history (report_group all_history days)
