-- ===== src/Reconcile/Issues.antt =====
-- Which issues `reconcile_all` of src/usagebassoon/reconcile.py records.
use usagebassoon.Prelude.{
  String, Bool, true, false, some, List, [], ◌∷◌, ◌&&◌, not, is_empty, Dict, lookup, insert, keys,
  contains, any, any-sort_by, sort_by, sorted, contains-sorted, string_eq, nat_eq, ◌≡◌, ◌↔◌, refl,
  All, ◌∙◌, arith, beq_refl, string_ord,
}
use usagebassoon.Usage.{Day, ModelStatsRow, DailyModelsPayload}
use usagebassoon.Reconcile.{
  Message, ReconciliationIssue, Findings, is_ok, has_duplicates, report_issue, check_keys,
  check_total, check_totals, check_cost, rate_mismatches, check_rates, reconcile_day,
  reconcile_days, no_findings, by_day, reconcile_all, issues_of,
}
use usagebassoon.Reconcile.Days.{day_fails, IsConsistent, day_fails_iff}

is_empty-insert :
    (k : String) (i : ReconciliationIssue) (d : Dict String ReconciliationIssue)
    → is_empty (insert k i d) ≡ false
unfolding insert
is_empty-insert k i [] = refl
is_empty-insert k i ((j, v) ∷ d) = ground arith

abbrev clear : Findings → Bool
clear f = is_empty f.issues

clear-report_issue :
    (b : Bool) (check key : String) (m : Message) (day : Day) (f : Findings)
    → clear (report_issue b check key m day f) ≡ (not b && clear f)
unfolding report_issue
clear-report_issue true check key m day f =
    is_empty-insert key (record { check = check; key = key; message = m }) f.issues
clear-report_issue false check key m day f = refl

clear-rates :
    (found rows : List ModelStatsRow) (day : Day) (f : Findings)
    → rate_mismatches rows ≡ found
    → clear (check_rates day rows f) ≡ (is_empty found && clear f)
unfolding check_rates
clear-rates [] rows day f e = rw (e, check_rates)
clear-rates (row ∷ more) rows day f e = rw (e, check_rates) (simp clear-report_issue)

clear-check_rates :
    (day : Day) (rows : List ModelStatsRow) (f : Findings)
    → clear (check_rates day rows f) ≡ (is_empty (rate_mismatches rows) && clear f)
clear-check_rates day rows f = clear-rates (rate_mismatches rows) rows day f refl

clear-check_keys :
    (day : Day) (rows : List ModelStatsRow) (f : Findings)
    → clear (check_keys day rows f) ≡ (not (has_duplicates rows) && clear f)
unfolding check_keys
clear-check_keys day rows f = simp clear-report_issue (ground arith)

clear-reconcile_day :
    (day : Day) (payload : DailyModelsPayload) (f : Findings)
    → clear (reconcile_day (day, payload) f) ≡ (not (day_fails payload) && clear f)
unfolding reconcile_day day_fails check_totals check_total check_cost
clear-reconcile_day day payload f = simp (clear-check_rates, clear-report_issue) (ground arith)

abbrev fails : Day × DailyModelsPayload → Bool
fails (day, payload) = day_fails payload

clear-reconcile_days :
    (entries : List (Day × DailyModelsPayload)) (f : Findings)
    → clear (reconcile_days entries f) ≡ (not (any fails entries) && clear f)
unfolding reconcile_days
clear-reconcile_days [] f = ground arith
clear-reconcile_days ((day, payload) ∷ entries) f = ground (
  arith,
  clear-reconcile_days entries (reconcile_day (day, payload) f),
  clear-reconcile_day day payload f,
)

-- `issues[key]` is found for every key that is listed.
is_empty-issues_of :
    (issues : Dict String ReconciliationIssue) (names : List String) (k : String)
    (i : ReconciliationIssue)
    → contains names k ≡ true
    → lookup k issues ≡ some i
    → is_empty (issues_of issues names) ≡ false
unfolding issues_of contains
is_empty-issues_of issues [] k i h e = ground arith
is_empty-issues_of issues (name ∷ names) k i h e =
    ground (arith, string_eq.beq_iff name k, is_empty-issues_of issues names k i)

issues_of-sorted :
    (issues : Dict String ReconciliationIssue)
    → is_empty (issues_of issues (sorted (keys issues))) ≡ is_empty issues
unfolding sorted sort_by issues_of
issues_of-sorted [] = refl
issues_of-sorted ((k, i) ∷ issues) =
    is_empty-issues_of ((k, i) ∷ issues) (sorted (keys ((k, i) ∷ issues))) k i
      (contains-sorted (k ∷ keys issues) k ∙ unfold contains in ground (arith, beq_refl k))
      (unfold lookup in ground (arith, beq_refl k))

is_ok-any :
    (daily : Dict Day DailyModelsPayload) → is_ok (reconcile_all daily) ≡ not (any fails daily)
unfolding is_ok reconcile_all
is_ok-any daily =
    let f = reconcile_days (sort_by by_day daily) no_findings in
    ground (
      arith,
      issues_of-sorted f.issues,
      clear-reconcile_days (sort_by by_day daily) no_findings,
      any-sort_by fails by_day daily,
    )

any-fails :
    (daily : Dict Day DailyModelsPayload)
    → (not (any fails daily) ≡ true) ↔ All (λ entry. IsConsistent entry.1) daily
any-fails [] = (λ _. tt, λ _. refl)
any-fails ((day, payload) ∷ rest) = (
  λ h. ((day_fails_iff payload).0 (ground arith), (any-fails rest).0 (ground arith)),
  λ h. ground (arith, (day_fails_iff payload).1 h.0, (any-fails rest).1 h.1),
)

-- No issue is recorded if and only if every response is consistent with itself.
pub reconcile_all-ok :
    (daily : Dict Day DailyModelsPayload)
    → (is_ok (reconcile_all daily) ≡ true) ↔ All (λ entry. IsConsistent entry.1) daily
reconcile_all-ok daily = rw is_ok-any (any-fails daily)

pub reconcile_all-resolved :
    (daily : Dict Day DailyModelsPayload) → (reconcile_all daily).resolved ≡ []
unfolding reconcile_all
reconcile_all-resolved daily = refl
