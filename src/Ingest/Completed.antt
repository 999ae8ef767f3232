-- ===== src/Ingest/Completed.antt =====
-- What the ledger rows on daily models of src/usagebassoon/ingest.py claim as complete.
use usagebassoon.Prelude.{
  String, Bool, true, false, List, ◌==◌, is_empty, All, All-map, All-append, All-always, Bool-cases,
  Dict, contains, difference, to_set, sort_by, sorted, map, string_eq, nat_eq, pair_eq, nat_ord,
  ◌≡◌, refl, ◌≢◌, ◌⊎◌, inl, inr, arith,
}
use usagebassoon.Usage.{Day, SessionRow, DailyModelsPayload}
use usagebassoon.Reconcile.{reconcile_all}
use usagebassoon.Reconcile.Days.{DayIsConsistent, reconcile_all-affected}
use usagebassoon.Ingest.Statuses.{
  IngestStatus, SessionIdentity, ledger_row, models_status, failed_status, models_statuses,
  by_failed_day, report_status, session_statuses, session_identity, price_status, price_statuses,
  by_priced_day,
}

-- A row claims a day of daily models as complete only when the day's responses are consistent.
abbrev pub ModelsDone : Dict Day DailyModelsPayload → IngestStatus → Type 0
ModelsDone daily s = (s.domain ≢ "models") ⊎ (s.status ≢ "complete") ⊎ DayIsConsistent s.day daily

models_status-ModelsDone :
    (daily : Dict Day DailyModelsPayload) (run_id : String) (day : Day)
    → ModelsDone daily (models_status (reconcile_all daily).affected_days run_id day)
unfolding models_status ledger_row
models_status-ModelsDone daily run_id day =
    elim (Bool-cases (contains (reconcile_all daily).affected_days day)) [
      | inl found ↦
          rw found (inr (inl (λ done. ground (arith, string_eq.beq_iff "partial" "complete"))))
      | inr absent ↦ rw absent (inr (inr ((reconcile_all-affected day daily).0 absent)))
    ]

failed_status-ModelsDone :
    (daily : Dict Day DailyModelsPayload) (run_id : String) (entry : Day × String)
    → ModelsDone daily (failed_status run_id entry)
unfolding failed_status ledger_row
failed_status-ModelsDone daily run_id (day, failure) =
    inr (inl (λ done. ground (arith, string_eq.beq_iff "failed" "complete")))

-- The row is not on daily models.
abbrev pub IsOther : IngestStatus → Type 0
IsOther s = (s.domain == "models") ≡ false

pub IsOther-ModelsDone :
    (daily : Dict Day DailyModelsPayload) (s : IngestStatus) → IsOther s → ModelsDone daily s
IsOther-ModelsDone daily s other = inl (λ same. ground (arith, string_eq.beq_iff s.domain "models"))

pub report_status-IsOther :
    (failures : Dict Day String) (inventory : Bool) (run_id : String) (day : Day)
    → IsOther (report_status failures inventory run_id day)
unfolding report_status ledger_row
report_status-IsOther failures true run_id day = refl
report_status-IsOther failures false run_id day = refl

pub session_statuses-IsOther :
    (expected : List SessionIdentity) (rows : List SessionRow) (day : Day) (run_id : String)
    → All IsOther (session_statuses expected rows day run_id)
unfolding session_statuses ledger_row
session_statuses-IsOther expected rows day run_id = elim (Bool-cases (is_empty expected)) [
  | inl nothing ↦ rw nothing tt
  | inr some_sessions ↦
      rw some_sessions
        (elim (Bool-cases (is_empty (difference expected (to_set (map session_identity rows))))) [
          | inl covered ↦ rw covered (refl, tt)
          | inr missing ↦ rw missing (refl, tt)
        ])
]

pub price_statuses-IsOther :
    (expected existing fetched : Dict Day (List String)) (failures : Dict Day String)
    (affected : List Day) (run_id : String)
    → All IsOther (price_statuses expected existing fetched failures affected run_id)
unfolding price_statuses price_status ledger_row
price_statuses-IsOther expected existing fetched failures affected run_id =
    let days = sort_by by_priced_day expected in
    All-map IsOther (price_status existing fetched failures affected run_id) days
      (All-always (λ entry. refl) days)

pub models_statuses-ModelsDone :
    (daily : Dict Day DailyModelsPayload) (days : List Day) (failures : Dict Day String)
    (run_id : String)
    → All
        (ModelsDone daily)
        (models_statuses (reconcile_all daily).affected_days days failures run_id)
unfolding models_statuses
models_statuses-ModelsDone daily days failures run_id =
    All-append (ModelsDone daily) _ _
      (All-map (ModelsDone daily) _ _
        (All-always (models_status-ModelsDone daily run_id) (sorted days)))
      (All-map (ModelsDone daily) _ _
        (All-always (failed_status-ModelsDone daily run_id) (sort_by by_failed_day failures)))
