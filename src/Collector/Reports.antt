-- ===== src/Collector/Reports.antt =====
-- What `_fetch_reports` of src/usagebassoon/collector.py makes of every day.
use usagebassoon.Prelude.{
  Bool, false, Option, none, some, List, [], ◌∷◌, ◌&&◌, ◌||◌, nat_eq, string_eq, pair_eq, nat_ord,
  string_ord, contains, is_some, lookup, if◌then◌else◌, ◌>>=◌, ◌≡◌, refl, arith, Result-cases, inl,
  inr,
}
use usagebassoon.Usage.{Day}
use usagebassoon.Contract.Json.{Json}
use usagebassoon.Collector.{
  Answer, require_array, report_bounds, report_group, all_reports, fetch_group, last_day_of,
  fetch_reports,
}

lookup-all_reports :
    (report : Json) (days : List Day) (d : Day)
    → lookup d (all_reports report days) ≡ (if contains days d then some report else none)
unfolding all_reports lookup contains
lookup-all_reports report [] d = refl
lookup-all_reports report (day ∷ days) d = ground (arith, lookup-all_reports report days d)

fetch_group-partition :
    (ask : Option (Day × Day) → Answer) (last_day : Day) (all_history : Bool) (days : List Day)
    (d : Day)
    → let fetched = fetch_group ask last_day all_history days in
      ((is_some (lookup d fetched.reports) || contains fetched.failures d) ≡ contains days d)
      × ((is_some (lookup d fetched.reports) && contains fetched.failures d) ≡ false)
unfolding fetch_group
fetch_group-partition ask last_day all_history [] d = unfold contains lookup in (refl, refl)
fetch_group-partition ask last_day all_history (day ∷ days) d =
    let bounds =
      if all_history then none else some (report_bounds last_day day (last_day_of day days)) in
    elim (Result-cases (ask bounds >>= require_array)) [
      | inl (e, failed) ↦
          rw (failed, fetch_group) (unfold lookup in ground arith, unfold lookup in refl)
      | inr (report, answered) ↦
          rw (answered, fetch_group, lookup-all_reports report (day ∷ days) d)
            (unfold contains in ground arith, unfold contains in ground arith)
    ]

-- A day of a report request has the report of the one command that was run, or it is recorded as a
-- failure, never both; another day has neither.
fetch_reports-partition :
    (ask : Option (Day × Day) → Answer) (last_day : Day) (all_history : Bool) (days : List Day)
    (d : Day)
    → let fetched = fetch_reports ask last_day all_history days in
      ((is_some (lookup d fetched.reports) || contains fetched.failures d)
        ≡ contains (report_group all_history days) d)
      × ((is_some (lookup d fetched.reports) && contains fetched.failures d) ≡ false)
unfolding fetch_reports
fetch_reports-partition ask last_day all_history days d =
    fetch_group-partition ask last_day all_history (report_group all_history days) d
