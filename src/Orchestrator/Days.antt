-- ===== src/Orchestrator/Days.antt =====
-- Which days src/usagebassoon/orchestrator.py attempts.
use usagebassoon.Prelude.{
  ℕ, zero, suc, ◌+◌, ◌-◌, ◌≤◌, true, false, Option, none, some, List, [], ◌∷◌, ◌++◌, ◌&&◌, ◌==◌,
  ltb, leb, lookup, keys, distinct_keys, contains, contains-select, contains-sorted,
  contains-to_set, contains-append, to_set, ok, All, All-select, All-imp, nat_eq, string_eq,
  pair_eq, nat_ord, ◌≡◌, ◌≢◌, refl, ap, ◌∙◌, inl, inr, Bool-cases, pair_beq_iff, arith,
}
use usagebassoon.Usage.{Day, Contribution}
use usagebassoon.Ingest.Statuses.{IngestTarget, IngestStatus}
use usagebassoon.Orchestrator.{
  Statuses, RefreshRange, refresh_range, historical_overlap, completed, retry_days, days_from,
  candidate_days, first_day, is_attempted, select_days,
}

contains-completed :
    (statuses : Statuses) (target : IngestTarget)
    → contains (keys statuses) target ≡ false
    → contains (completed statuses) target ≡ false
unfolding completed contains
contains-completed [] target h = refl
contains-completed ((other, status) ∷ rest) target h =
    ground (arith, contains-completed rest target)

not_completed :
    (statuses : Statuses) (target : IngestTarget) (status : IngestStatus)
    → distinct_keys statuses ≡ true
    → lookup target statuses ≡ some status
    → (status.status == "complete") ≡ false
    → contains (completed statuses) target ≡ false
unfolding completed contains lookup distinct_keys
not_completed [] target status d h open_status = ground arith
not_completed ((other, s) ∷ rest) target status d h open_status =
    elim (Bool-cases (other == target)) [
      | inl same ↦
          let found : s ≡ status = ground (arith, same, h) in
          let not_complete : (s.status == "complete") ≡ false =
            ap (λ x. x.status == "complete") found ∙ open_status in
          let unique : contains (keys rest) target ≡ false =
            ground (arith, ap (contains (keys rest)) ((pair_beq_iff other target).0 same), d) in
          rw not_complete (contains-completed rest target unique)
      | inr different ↦ ground (arith, different, not_completed rest target status)
    ]

contains-retry_days :
    (statuses : Statuses) (day : Day) (status : IngestStatus)
    → lookup (day, "models") statuses ≡ some status
    → (status.status == "complete") ≡ false
    → contains (retry_days statuses) day ≡ true
unfolding retry_days contains lookup
contains-retry_days [] day status h open_status = ground arith
contains-retry_days (((d, domain), s) ∷ rest) day status h open_status = ground (
  arith,
  contains-retry_days rest day status,
  nat_eq.beq_iff d day,
  string_eq.beq_iff domain "models",
)

contains-days_from :
    (since : Day) (count : ℕ) (day : Day)
    → contains (days_from since count) day ≡ (leb since day && ltb day (since + count))
unfolding days_from contains
contains-days_from since zero day = ground arith
contains-days_from since (suc count) day =
    ground (arith, contains-days_from (suc since) count day, nat_eq.beq_iff since day)

-- In a run without a refresh range, every day of daily models whose recorded status is not complete is
-- attempted again, if the recorded statuses have one entry for each target.
pub select_days-retries :
    (today : Day) (statuses : Statuses) (graph_days : List Day) (contributions : List Contribution)
    (persisted : List Day) (day : Day) (status : IngestStatus)
    → distinct_keys statuses ≡ true
    → lookup (day, "models") statuses ≡ some status
    → status.status ≢ "complete"
    → contains (select_days today statuses graph_days contributions persisted none).daily_days day
      ≡ true
unfolding select_days candidate_days is_attempted
select_days-retries today statuses graph_days contributions persisted day status d h open_status =
    let not_complete : (status.status == "complete") ≡ false =
      ground (arith, string_eq.beq_iff status.status "complete") in
    let candidates = candidate_days statuses graph_days in
    ground (
      arith,
      contains-select
          (is_attempted today (historical_overlap today graph_days) (completed statuses)) candidates
          day,
      contains-sorted (to_set (graph_days ++ retry_days statuses)) day,
      contains-to_set (graph_days ++ retry_days statuses) day,
      contains-append graph_days (retry_days statuses) day,
      contains-retry_days statuses day status h not_complete,
      not_completed statuses (day, "models") status d h not_complete,
    )

-- A range that is accepted ends today or before, and a refresh of it attempts exactly the days
-- from its first day to its last, whatever has been completed, and keeps the contributions of those days only.
select_days-refresh :
    (since until : Option Day) (today : Day) (range : RefreshRange) (statuses : Statuses)
    (graph_days : List Day) (contributions : List Contribution) (persisted : List Day) (day : Day)
    → refresh_range true since until today ≡ ok (some range)
    → let s = select_days today statuses graph_days contributions persisted (some range) in
      let first = first_day statuses graph_days persisted range in
      (range.1 ≤ today)
      × (contains s.daily_days day ≡ (leb first day && leb day range.1))
      × All (λ item. (first ≤ item.date) × (item.date ≤ range.1)) s.contributions
unfolding refresh_range select_days
select_days-refresh since until today range statuses graph_days contributions persisted day h =
    let first = first_day statuses graph_days persisted range in
    (
      ground arith,
      ground (arith, contains-days_from first (suc range.1 - first) day),
      All-imp (λ item p. (ground (arith, p), ground (arith, p))) _
          (All-select (λ item. leb first item.date && leb item.date range.1) contributions),
    )
