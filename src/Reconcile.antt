-- ===== src/Reconcile.antt =====
-- Reconciliation: `reconcile_all` of src/usagebassoon/reconcile.py, check by check. A message holds
-- the values that its text is formatted from. Costs and rates are whole numbers of 10^-12 units,
-- so the sums are exact, as `Decimal`'s are; the calculated rate is compared as a fraction.
pub mod Days
pub mod Issues
pub mod Tests
use usagebassoon.Prelude.{
  ℕ, zero, ◌+◌, ◌-◌, ◌*◌, String, Bool, true, false, Option, none, some, List, [], ◌∷◌, ◌&&◌, not,
  ◌==◌, ltb, leb, max, if◌then◌else◌, is_empty, length, Dict, lookup, insert, keys, contains, add,
  to_set, map, sum_of, sort_by, sorted, string_eq, nat_eq, triple_eq, string_ord, nat_ord,
}
use usagebassoon.Usage.{
  Day, Decimal, ModelStatsRow, ModelsPayload, DailyModelStatsRow, DailyModelsPayload,
}

-- The text of an issue.
pub data Message : Type 0 where
  duplicate_entries : Day → Message
  total_differs : Day → String → ℕ → ℕ → Message
  cost_differs : Day → Decimal → Decimal → Message
  rates_differ : Day → ℕ → ModelStatsRow → Message

pub record ReconciliationIssue : Type 0 where
  pub check : String
  pub key : String
  pub message : Message

abbrev pub ReconciliationIdentity : Type 0
ReconciliationIdentity = String × String

pub record ReconciliationResult : Type 0 where
  pub issues : List ReconciliationIssue
  pub affected_days : List Day
  pub unsafe_days : List Day
  pub resolved : List ReconciliationIdentity

-- `ReconciliationResult.ok`
pub is_ok : ReconciliationResult → Bool
is_ok r = is_empty r.issues

-- The three collections that `reconcile_all` accumulates.
pub record Findings : Type 0 where
  pub issues : Dict String ReconciliationIssue
  pub affected_days : List Day
  pub unsafe_days : List Day

abbrev pub row_key : ModelStatsRow → String × String × String
row_key row = (row.client, row.session_id, row.model)

abbrev pub stats_of : DailyModelsPayload → List ModelStatsRow
stats_of payload = map (λ item. item.stats) payload.entries

pub has_duplicates : List ModelStatsRow → Bool
has_duplicates rows = let names = map row_key rows in not (length names == length (to_set names))

-- What every failed assertion does: the day is affected, and the issue is written under its key.
pub report_issue : Bool → String → String → Message → Day → Findings → Findings
report_issue failed check key message day f =
    if failed
    then record f {
      issues = insert key (record { check = check; key = key; message = message }) f.issues;
      affected_days = add day f.affected_days;
    }
    else f

pub check_keys : Day → List ModelStatsRow → Findings → Findings
unfolding has_duplicates report_issue
check_keys day rows f =
    report_issue (has_duplicates rows) "models_payload_keys" "duplicate_session_model"
      (duplicate_entries day) day
      (if has_duplicates rows then record f { unsafe_days = add day f.unsafe_days } else f)

-- One round of the loop over `fields`.
pub check_total : Day → String → String → ℕ → ℕ → Findings → Findings
unfolding report_issue
check_total day key declared_name declared actual =
    report_issue (not (declared == actual)) "models_payload_totals" key
      (total_differs day declared_name declared actual) day

pub check_totals : Day → ModelsPayload → List ModelStatsRow → Findings → Findings
unfolding check_total
check_totals day totals rows f =
    check_total day "total_messages_mismatch" "totalMessages" totals.total_messages
      (sum_of (λ row. row.message_count) rows)
      (check_total day "total_cache_write_mismatch" "totalCacheWrite" totals.total_cache_write
        (sum_of (λ row. row.cache_write) rows)
        (check_total day "total_cache_read_mismatch" "totalCacheRead" totals.total_cache_read
          (sum_of (λ row. row.cache_read) rows)
          (check_total day "total_output_mismatch" "totalOutput" totals.total_output
            (sum_of (λ row. row.output_tokens) rows)
            (check_total day "total_input_mismatch" "totalInput" totals.total_input
              (sum_of (λ row. row.input_tokens) rows) f))))

-- |a - b|
abbrev pub distance : ℕ → ℕ → ℕ
distance a b = (a - b) + (b - a)

-- 0.00000001, in units of 10^-12
abbrev pub cost_tolerance : Decimal
cost_tolerance = 10000

pub check_cost : Day → ModelsPayload → List ModelStatsRow → Findings → Findings
unfolding report_issue
check_cost day totals rows =
    let actual = sum_of (λ row. row.tokscale_cost_usd) rows in
    report_issue (ltb cost_tolerance (distance totals.total_cost actual)) "models_payload_totals"
      "total_cost_mismatch" (cost_differs day totals.total_cost actual) day

-- `isclose(calculated, reported, rel_tol=1e-9, abs_tol=1e-9)` for calculated = 1000 * duration /
-- timed: both sides of the comparison are multiplied by timed and by 10^12 * 10^9.
is_close_rate : ℕ → ℕ → Decimal → Bool
is_close_rate duration timed reported =
    let calculated = 1000 * duration * 1000000000000 in
    let scaled = reported * timed in
    leb (distance calculated scaled * 1000000000)
      (max (max calculated scaled) (timed * 1000000000000))

-- The test of one row; `None` in one of the three fields skips the row.
rate_mismatch : ModelStatsRow → Bool
unfolding is_close_rate
rate_mismatch row = elim row.perf_duration_ms [
  | none ↦ false
  | some duration ↦ elim row.perf_timed_tokens [
    | none ↦ false
    | some timed ↦ elim row.tokscale_ms_per_1k_tokens [
      | none ↦ false
      | some reported ↦
          if timed == 0
          then not ((duration == 0) && (reported == 0))
          else not (is_close_rate duration timed reported)
    ]
  ]
]

pub rate_mismatches : List ModelStatsRow → List ModelStatsRow
unfolding rate_mismatch
rate_mismatches [] = []
rate_mismatches (row ∷ rows) =
    let rest = rate_mismatches rows in if rate_mismatch row then row ∷ rest else rest

pub check_rates : Day → List ModelStatsRow → Findings → Findings
unfolding rate_mismatches report_issue
check_rates day rows f = elim (rate_mismatches rows) [
  | [] ↦ f
  | row ∷ more ↦
      report_issue true "models_performance" "performance_rate_mismatch"
        (rates_differ day (length (row ∷ more)) row) day f
]

-- One round of the loop of `reconcile_all`.
pub reconcile_day : Day × DailyModelsPayload → Findings → Findings
unfolding check_keys check_totals check_cost check_rates
reconcile_day (day, payload) f =
    let rows = stats_of payload in
    check_rates day rows (
      check_cost day payload.totals rows
        (check_totals day payload.totals rows (check_keys day rows f)))

pub reconcile_days : List (Day × DailyModelsPayload) → Findings → Findings
unfolding reconcile_day
reconcile_days [] f = f
reconcile_days (entry ∷ entries) f = reconcile_days entries (reconcile_day entry f)

-- `tuple(issues[key] for key in sorted(issues))`
pub issues_of : Dict String ReconciliationIssue → List String → List ReconciliationIssue
issues_of issues [] = []
issues_of issues (key ∷ names) = elim (lookup key issues) [
  | none ↦ issues_of issues names
  | some issue ↦ issue ∷ issues_of issues names
]

abbrev pub no_findings : Findings
no_findings = record { issues = []; affected_days = []; unsafe_days = [] }

-- `sorted(daily_models.items())`: no two items share a day, so the day decides.
abbrev pub by_day : Day × DailyModelsPayload → Day × DailyModelsPayload → Bool
by_day a b = leb a.0 b.0

unfoldable pub reconcile_all : Dict Day DailyModelsPayload → ReconciliationResult
unfolding reconcile_days issues_of sort_by sorted
reconcile_all daily_models =
    let f = reconcile_days (sort_by by_day daily_models) no_findings in
    record {
      issues = issues_of f.issues (sorted (keys f.issues));
      affected_days = f.affected_days;
      unsafe_days = f.unsafe_days;
      resolved = [];
    }
