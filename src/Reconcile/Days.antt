-- ===== src/Reconcile/Days.antt =====
-- Which days `reconcile_all` of src/usagebassoon/reconcile.py reports.
use usagebassoon.Prelude.{
  ◌≤◌, String, Bool, true, false, List, [], ◌∷◌, ◌&&◌, ◌||◌, not, ◌==◌, ltb, is_empty, Dict,
  contains, contains-add, any, any-sort_by, sum_of, sort_by, string_eq, nat_eq, ◌≡◌, ◌↔◌, refl, All,
  arith, Bool-cases, inl, inr,
}
use usagebassoon.Usage.{Day, ModelStatsRow, ModelsPayload, DailyModelsPayload}
use usagebassoon.Reconcile.{
  Message, Findings, stats_of, has_duplicates, report_issue, check_keys, check_total, check_totals,
  distance, cost_tolerance, check_cost, rate_mismatches, check_rates, reconcile_day, reconcile_days,
  no_findings, by_day, reconcile_all,
}

-- A response that agrees with its own totals, names no session and model twice, and states
-- the rates that its durations give.
pub record IsConsistent (payload : DailyModelsPayload) : Type 0 where
  pub distinct : has_duplicates (stats_of payload) ≡ false
  pub input : payload.totals.total_input ≡ sum_of (λ row. row.input_tokens) (stats_of payload)
  pub output : payload.totals.total_output ≡ sum_of (λ row. row.output_tokens) (stats_of payload)
  pub cache_read :
      payload.totals.total_cache_read ≡ sum_of (λ row. row.cache_read) (stats_of payload)
  pub cache_write :
      payload.totals.total_cache_write ≡ sum_of (λ row. row.cache_write) (stats_of payload)
  pub messages :
      payload.totals.total_messages ≡ sum_of (λ row. row.message_count) (stats_of payload)
  pub cost :
      distance payload.totals.total_cost (sum_of (λ row. row.tokscale_cost_usd) (stats_of payload))
      ≤ cost_tolerance
  pub rates : rate_mismatches (stats_of payload) ≡ []

-- The same as a test.
abbrev totals_differ : ModelsPayload → List ModelStatsRow → Bool
totals_differ totals rows =
    not (totals.total_input == sum_of (λ row. row.input_tokens) rows)
    || not (totals.total_output == sum_of (λ row. row.output_tokens) rows)
    || not (totals.total_cache_read == sum_of (λ row. row.cache_read) rows)
    || not (totals.total_cache_write == sum_of (λ row. row.cache_write) rows)
    || not (totals.total_messages == sum_of (λ row. row.message_count) rows)

abbrev cost_differs : ModelsPayload → List ModelStatsRow → Bool
cost_differs totals rows =
    ltb cost_tolerance (distance totals.total_cost (sum_of (λ row. row.tokscale_cost_usd) rows))

unfoldable pub day_fails : DailyModelsPayload → Bool
day_fails payload =
    let rows = stats_of payload in
    has_duplicates rows
    || totals_differ payload.totals rows
    || cost_differs payload.totals rows
    || not (is_empty (rate_mismatches rows))

pub day_fails_iff :
    (payload : DailyModelsPayload) → (day_fails payload ≡ false) ↔ IsConsistent payload
unfolding day_fails
day_fails_iff payload = (λ h. ground arith, λ c. ground arith)

module _ (d : Day) where
  abbrev marks : Findings → Bool
  marks f = contains f.affected_days d

  marks-report_issue :
      (b : Bool) (check key : String) (m : Message) (day : Day) (f : Findings)
      → marks (report_issue b check key m day f) ≡ (((day == d) && b) || marks f)
  unfolding report_issue
  marks-report_issue true check key m day f = ground (arith, contains-add day d f.affected_days)
  marks-report_issue false check key m day f = ground arith

  marks-check_keys :
      (day : Day) (rows : List ModelStatsRow) (f : Findings)
      → marks (check_keys day rows f) ≡ (((day == d) && has_duplicates rows) || marks f)
  unfolding check_keys report_issue
  marks-check_keys day rows f = ground (arith, contains-add day d f.affected_days)

  marks-check_totals :
      (day : Day) (totals : ModelsPayload) (rows : List ModelStatsRow) (f : Findings)
      → marks (check_totals day totals rows f)
        ≡ (((day == d) && totals_differ totals rows) || marks f)
  unfolding check_totals check_total
  marks-check_totals day totals rows f = simp marks-report_issue (ground arith)

  marks-check_cost :
      (day : Day) (totals : ModelsPayload) (rows : List ModelStatsRow) (f : Findings)
      → marks (check_cost day totals rows f) ≡ (((day == d) && cost_differs totals rows) || marks f)
  unfolding check_cost
  marks-check_cost day totals rows f = simp marks-report_issue (ground arith)

  marks-check_rates :
      (day : Day) (rows : List ModelStatsRow) (f : Findings)
      → marks (check_rates day rows f)
        ≡ (((day == d) && not (is_empty (rate_mismatches rows))) || marks f)
  unfolding check_rates report_issue
  marks-check_rates day rows f = ground (arith, contains-add day d f.affected_days)

  marks-reconcile_day :
      (day : Day) (payload : DailyModelsPayload) (f : Findings)
      → marks (reconcile_day (day, payload) f) ≡ (((day == d) && day_fails payload) || marks f)
  unfolding reconcile_day day_fails
  marks-reconcile_day day payload f =
      simp (marks-check_rates, marks-check_cost, marks-check_totals, marks-check_keys)
        (ground arith)

  abbrev failing : Day × DailyModelsPayload → Bool
  failing (day, payload) = (day == d) && day_fails payload

  marks-reconcile_days :
      (entries : List (Day × DailyModelsPayload)) (f : Findings)
      → marks (reconcile_days entries f) ≡ (any failing entries || marks f)
  unfolding reconcile_days
  marks-reconcile_days [] f = refl
  marks-reconcile_days ((day, payload) ∷ entries) f = ground (
    arith,
    marks-reconcile_days entries (reconcile_day (day, payload) f),
    marks-reconcile_day day payload f,
  )

  affected_days-any :
      (daily : Dict Day DailyModelsPayload)
      → contains (reconcile_all daily).affected_days d ≡ any failing daily
  unfolding reconcile_all contains
  affected_days-any daily = ground (
    arith,
    marks-reconcile_days (sort_by by_day daily) no_findings,
    any-sort_by failing by_day daily,
  )

  -- Every response of the day is consistent with itself.
  abbrev pub DayIsConsistent : Dict Day DailyModelsPayload → Type 0
  DayIsConsistent daily = All (λ entry. entry.0 ≡ d → IsConsistent entry.1) daily

  any-failing :
      (daily : Dict Day DailyModelsPayload) → (any failing daily ≡ false) ↔ DayIsConsistent daily
  any-failing [] = (λ _. tt, λ _. refl)
  any-failing ((day, payload) ∷ rest) = (
    λ h. (
      λ e. (day_fails_iff payload).0 (ground (arith, nat_eq.beq_iff day d)),
      (any-failing rest).0 (ground arith),
    ),
    λ h. elim (Bool-cases (day == d)) [
      | inl same ↦ ground (
        arith,
        (day_fails_iff payload).1 (h.0 ((nat_eq.beq_iff day d).0 same)),
        (any-failing rest).1 h.1,
      )
      | inr other ↦ ground (arith, (any-failing rest).1 h.1)
    ],
  )

  -- A day needs another attempt exactly when a response of that day is not consistent with itself:
  -- it is left out of the affected days if and only if its responses all are.
  pub reconcile_all-affected :
      (daily : Dict Day DailyModelsPayload)
      → (contains (reconcile_all daily).affected_days d ≡ false) ↔ DayIsConsistent daily
  reconcile_all-affected daily = rw affected_days-any (any-failing daily)

-- The days that are unsafe to publish.
module _ (d : Day) where
  abbrev unsafe : Findings → Bool
  unsafe f = contains f.unsafe_days d

  unsafe-report_issue :
      (b : Bool) (check key : String) (m : Message) (day : Day) (f : Findings)
      → unsafe (report_issue b check key m day f) ≡ unsafe f
  unfolding report_issue
  unsafe-report_issue true check key m day f = refl
  unsafe-report_issue false check key m day f = refl

  unsafe-check_rates :
      (day : Day) (rows : List ModelStatsRow) (f : Findings)
      → unsafe (check_rates day rows f) ≡ unsafe f
  unfolding check_rates report_issue
  unsafe-check_rates day rows f = ground arith

  unsafe-check_keys :
      (day : Day) (rows : List ModelStatsRow) (f : Findings)
      → unsafe (check_keys day rows f) ≡ (((day == d) && has_duplicates rows) || unsafe f)
  unfolding check_keys report_issue
  unsafe-check_keys day rows f = ground (arith, contains-add day d f.unsafe_days)

  unsafe-reconcile_day :
      (day : Day) (payload : DailyModelsPayload) (f : Findings)
      → unsafe (reconcile_day (day, payload) f)
        ≡ (((day == d) && has_duplicates (stats_of payload)) || unsafe f)
  unfolding reconcile_day check_totals check_total check_cost
  unsafe-reconcile_day day payload f =
      simp (unsafe-check_rates, unsafe-report_issue)
        (ground (arith, contains-add day d f.unsafe_days))

  abbrev pub repeats : Day × DailyModelsPayload → Bool
  repeats (day, payload) = (day == d) && has_duplicates (stats_of payload)

  unsafe-reconcile_days :
      (entries : List (Day × DailyModelsPayload)) (f : Findings)
      → unsafe (reconcile_days entries f) ≡ (any repeats entries || unsafe f)
  unfolding reconcile_days
  unsafe-reconcile_days [] f = refl
  unsafe-reconcile_days ((day, payload) ∷ entries) f = ground (
    arith,
    unsafe-reconcile_days entries (reconcile_day (day, payload) f),
    unsafe-reconcile_day day payload f,
  )

  any-repeats-failing :
      (daily : Dict Day DailyModelsPayload)
      → any repeats daily ≡ true
      → any (failing d) daily ≡ true
  unfolding day_fails
  any-repeats-failing [] h = ground arith
  any-repeats-failing ((day, payload) ∷ rest) h = ground (arith, any-repeats-failing rest)

  -- A day is unsafe exactly when one of its responses repeats a client, session and model; every
  -- unsafe day is also affected, so it is attempted again.
  pub reconcile_all-unsafe :
      (daily : Dict Day DailyModelsPayload)
      → (contains (reconcile_all daily).unsafe_days d ≡ any repeats daily)
        × ((contains (reconcile_all daily).unsafe_days d
              && not (contains (reconcile_all daily).affected_days d))
            ≡ false)
  unfolding reconcile_all contains
  reconcile_all-unsafe daily =
      let e : contains (reconcile_all daily).unsafe_days d ≡ any repeats daily = ground (
        arith,
        unsafe-reconcile_days (sort_by by_day daily) no_findings,
        any-sort_by repeats by_day daily,
      ) in
      (e, ground (arith, e, affected_days-any d daily, any-repeats-failing daily))
