-- ===== src/Collector/Tests.antt =====
-- Runs of the fetch loops of src/usagebassoon/collector.py.
use usagebassoon.Prelude.{
  ℕ, String, Bool, true, false, Option, none, some, List, [], ◌∷◌, ◌==◌, ◌&&◌, ◌||◌, nat_eq,
  string_eq, pair_eq, any, all, contains, is_some, lookup, Dict, Result, ok, err, if◌then◌else◌,
  ◌≡◌, refl,
}
use usagebassoon.Usage.{Day}
use usagebassoon.Contract.Json.{object, array, end, nil}
use usagebassoon.Orchestrator.Requests.{ModelsByDay, models_on}
use usagebassoon.Collector.{
  Answer, CommandError, os_error, runtime_error, DailyFetch, fetch_daily_models, PriceFetch,
  fetch_pricing, fetch_reports, report_group,
}
use usagebassoon.Collector.DailyModels.{
  delivered, missed, is_settled, object_answer, fetch_daily_models-outcome,
}
use usagebassoon.Collector.Pricing.{has_outcome, fetch_pricing-has_outcome}

-- Every command answers but the one for day 4.
abbrev ask_day : Day → Answer
ask_day day = if day == 4 then err os_error else ok (object end)

abbrev two_days : List Day
two_days = 3 ∷ 4 ∷ []

days-settled : all (λ day. is_settled (object_answer ask_day day)) two_days ≡ true
unfolding is_settled usagebassoon.Collector.require_object
days-settled = refl

four-requested : contains two_days 4 ≡ true
unfolding contains
four-requested = refl

fetch_daily_models-outcome_example :
    (r : DailyFetch) × (fetch_daily_models ask_day two_days
        (record { payloads = []; failures = [] })
      ≡ ok r)
    × (lookup 4 r.payloads ≡ delivered (object_answer ask_day 4) none)
    × (lookup 4 r.failures ≡ missed (object_answer ask_day 4) none)
fetch_daily_models-outcome_example =
    fetch_daily_models-outcome ask_day two_days 4 days-settled four-requested

-- The second model has no price.
abbrev ask_model : String → Answer
ask_model model = if model == "free" then err runtime_error else ok (object end)

abbrev requests : ModelsByDay
requests = (7, "paid" ∷ "free" ∷ []) ∷ []

free-requested : any (λ entry. contains entry.1 "free") requests ≡ true
unfolding contains
free-requested = refl

-- The day changes after the first request.
abbrev midnight : ℕ → Day × Day
midnight i = if i == 0 then (7, 8) else (8, 8)

none-stored : (i : ℕ) → contains (models_on (midnight i).0 []) "free" ≡ false
unfolding contains lookup
none-stored i = refl

fetch_pricing-has_outcome_example :
    has_outcome "free" (fetch_pricing ask_model [] midnight requests) ≡ true
fetch_pricing-has_outcome_example =
    fetch_pricing-has_outcome ask_model [] midnight requests "free" free-requested none-stored

free-failed : (fetch_pricing ask_model [] midnight requests).failures ≡ (7, "free" ∷ []) ∷ []
unfolding fetch_pricing usagebassoon.Prelude.sort_by usagebassoon.Prelude.place
    usagebassoon.Prelude.sorted contains lookup usagebassoon.Prelude.insert
    usagebassoon.Prelude.union
free-failed = refl

abbrev ask_report : Option (Day × Day) → Answer
ask_report bounds = ok (array nil)
