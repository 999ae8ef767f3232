-- ===== src/Ingest/Payloads.antt =====
-- The report and price parts of `build_collection_bundle` in src/usagebassoon/ingest.py.
use usagebassoon.Prelude.{
  ℕ, String, Bool, true, false, Option, none, some, List, [], ◌∷◌, ◌++◌, if◌then◌else◌, is_empty,
  Dict, lookup, insert, keys, contains, sorted, string_eq, nat_eq, nat_ord, pair_eq,
}
use usagebassoon.Usage.{Day, SessionRow, PricingRow}
use usagebassoon.Contract.Json.{Json, Items, nil, cons, array}
use usagebassoon.Contract.Diff.{ContractDrift, PayloadContract, diff_contract}
use usagebassoon.Report.{parse_report}
use usagebassoon.Ingest.Plan.{Validators}

-- A report payload with the identity of its object: a grouped request stands under several days.
pub record ReportPayload : Type 0 where
  pub identity : ℕ
  pub rows : Items

abbrev no_rows : Items → Bool
no_rows nil = true
no_rows (cons x xs) = false

-- What the loop over `raw.report_by_day` accumulates.
pub record Reports : Type 0 where
  pub valid : Dict Day ReportPayload
  pub failures : Dict Day String
  pub events : List ContractDrift

check_report : PayloadContract → Reports → Day → ReportPayload → Reports
check_report contract r day payload =
    let validation = diff_contract contract (array payload.rows) in
    if no_rows payload.rows
    then record r { valid = insert day payload r.valid }
    else if validation.fatal
    then record r {
      failures = insert day "contract" r.failures;
      events = r.events ++ validation.events;
    }
    else record r { valid = insert day payload r.valid; events = r.events ++ validation.events }

check_reports : PayloadContract → Reports → Dict Day ReportPayload → Reports
unfolding check_report
check_reports contract r [] = r
check_reports contract r ((day, payload) ∷ rest) =
    check_reports contract (check_report contract r day payload) rest

-- `combined_reports`: the rows of each payload object once, in the order of the days.
append_items : Items → List Json → List Json
append_items nil rest = rest
append_items (cons x xs) rest = x ∷ append_items xs rest

combine_reports : List Day → Dict Day ReportPayload → List ℕ → List Json
unfolding append_items
combine_reports [] valid seen = []
combine_reports (day ∷ days) valid seen = elim (lookup day valid) [
  | none ↦ combine_reports days valid seen
  | some payload ↦
      if contains seen payload.identity
      then combine_reports days valid seen
      else append_items payload.rows (combine_reports days valid (payload.identity ∷ seen))
]

validate_rows : Validators → List Json → Option (List SessionRow)
validate_rows v [] = some []
validate_rows v (row ∷ rows) = elim (v.session row) [
  | none ↦ none
  | some session ↦ elim (validate_rows v rows) [ none ↦ none | some rest ↦ some (session ∷ rest) ]
]

-- `parse_report` on the combined rows
parse_rows : Validators → List Json → Option (List SessionRow)
unfolding validate_rows
parse_rows v rows = elim (validate_rows v rows) [
  | none ↦ none
  | some sessions ↦ parse_report sessions
]

-- `report_failures[day] = code for day in days`
fail_days : String → List Day → Dict Day String → Dict Day String
fail_days code [] failures = failures
fail_days code (day ∷ days) failures = fail_days code days (insert day code failures)

-- The report part as a whole: the rows, the failures and the valid days.
pub record ParsedReports : Type 0 where
  pub rows : List SessionRow
  pub failures : Dict Day String
  pub valid_days : List Day
  pub events : List ContractDrift

unfoldable pub parse_reports :
    Validators → PayloadContract → List Day → Dict Day ReportPayload → ParsedReports
unfolding check_reports combine_reports parse_rows fail_days sorted
parse_reports v contract fetch_failures raw =
    let r =
      check_reports contract
        (record { valid = []; failures = fail_days "fetch" fetch_failures []; events = [] }) raw in
    let days = keys r.valid in
    elim (parse_rows v (combine_reports (sorted days) r.valid [])) [
      | none ↦ record {
        rows = [];
        failures = fail_days "parse" days r.failures;
        valid_days = days;
        events = r.events;
      }
      | some rows ↦ record {
        rows = rows;
        failures = r.failures;
        valid_days = days;
        events = r.events;
      }
    ]

abbrev pub RawPrices : Type 0
RawPrices = Dict Day (Dict String Json)

abbrev pub ParsedPrices : Type 0
ParsedPrices = Dict Day (Dict String PricingRow)

-- What the loop over the prices of a day accumulates; a later failure code replaces an earlier one.
pub record DayPrices : Type 0 where
  pub parsed : Dict String PricingRow
  pub failure : Option String
  pub events : List ContractDrift

parse_price : Validators → PayloadContract → DayPrices → String → Json → DayPrices
parse_price v contract d model payload =
    let validation = diff_contract contract payload in
    let events = d.events ++ validation.events in
    if validation.fatal
    then record d { failure = some "contract"; events = events }
    else elim (v.pricing payload) [
      | none ↦ record d { failure = some "parse"; events = events }
      | some row ↦ record d { parsed = insert model row d.parsed; events = events }
    ]

pub parse_day_prices : Validators → PayloadContract → DayPrices → Dict String Json → DayPrices
unfolding parse_price
parse_day_prices v contract d [] = d
parse_day_prices v contract d ((model, payload) ∷ rest) =
    parse_day_prices v contract (parse_price v contract d model payload) rest

pub record PricePart : Type 0 where
  pub pricing_by_day : ParsedPrices
  pub failures : Dict Day String
  pub events : List ContractDrift

unfoldable pub parse_prices : Validators → PayloadContract → PricePart → RawPrices → PricePart
unfolding parse_day_prices
parse_prices v contract p [] = p
parse_prices v contract p ((day, prices) ∷ rest) =
    let d =
      parse_day_prices v contract (record { parsed = []; failure = none; events = p.events })
        prices in
    parse_prices v contract
      (record {
        pricing_by_day =
            if is_empty d.parsed then p.pricing_by_day else insert day d.parsed p.pricing_by_day;
        failures = elim d.failure [ none ↦ p.failures | some code ↦ insert day code p.failures ];
        events = d.events;
      })
      rest

-- `{day: "fetch" for day, models in fetch_failures.items() if models}`
unfoldable pub price_fetch_failures : Dict Day (List String) → Dict Day String → Dict Day String
price_fetch_failures [] failures = failures
price_fetch_failures ((day, models) ∷ rest) failures =
    price_fetch_failures rest (if is_empty models then failures else insert day "fetch" failures)
