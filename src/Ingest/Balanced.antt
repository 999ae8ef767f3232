-- ===== src/Ingest/Balanced.antt =====
-- Each row of the retry ledger of src/usagebassoon/ingest.py has counts that fit its status.
use usagebassoon.Prelude.{
  ℕ, ◌≤◌, String, Bool, true, false, Option, none, some, List, [], ◌&&◌, not, ◌==◌, or_else,
  if◌then◌else◌, is_empty, length, All, All-map, All-append, All-always, Bool-cases, length-inter,
  length-inter-subset, Dict, lookup, contains, difference, inter, union, to_set, sort_by, sorted,
  map, string_eq, nat_beq, nat_eq, pair_eq, nat_ord, is_some, ◌≡◌, refl, ◌↔◌, inl, inr, arith,
}
use usagebassoon.Usage.{Day, SessionRow}
use usagebassoon.Ingest.Statuses.{
  IngestStatus, SessionIdentity, ledger_row, models_status, failed_status, models_statuses,
  by_failed_day, report_status, session_statuses, session_identity, price_outcome, price_status,
  price_statuses, by_priced_day,
}

-- Both counts are recorded, the first at most the second, and the row is complete exactly when they
-- agree and there is no failure code.
abbrev pub IsBalanced : IngestStatus → Type 0
IsBalanced s =
    (expected : ℕ) × (succeeded : ℕ) × (s.expected_count ≡ some expected)
    × (s.succeeded_count ≡ some succeeded)
    × (succeeded ≤ expected)
    × ((s.status ≡ "complete") ↔ ((succeeded ≡ expected) × (s.failure_code ≡ none)))

ledger_row-IsBalanced :
    (day : Day) (domain status : String) (expected succeeded : ℕ) (run_id : String)
    (failure : Option String)
    → succeeded ≤ expected
    → (status == "complete") ≡ ((succeeded == expected) && not (is_some failure))
    → IsBalanced (ledger_row day domain status expected succeeded run_id failure)
unfolding ledger_row
ledger_row-IsBalanced day domain status expected succeeded run_id none bound agrees = (
  expected,
  succeeded,
  refl,
  refl,
  bound,
  ground (arith, string_eq.beq_iff status "complete", nat_eq.beq_iff succeeded expected),
)
ledger_row-IsBalanced day domain status expected succeeded run_id (some code) bound agrees =
    (expected, succeeded, refl, refl, bound, ground (arith, string_eq.beq_iff status "complete"))

models_status-IsBalanced :
    (affected : List Day) (run_id : String) (day : Day)
    → IsBalanced (models_status affected run_id day)
unfolding models_status
models_status-IsBalanced affected run_id day = elim (Bool-cases (contains affected day)) [
  | inl found ↦ rw found (
      ledger_row-IsBalanced day "models" "partial" 1 0 run_id (some "reconciliation") (omega arith)
        refl)
  | inr absent ↦
      rw absent (ledger_row-IsBalanced day "models" "complete" 1 1 run_id none (omega arith) refl)
]

failed_status-IsBalanced :
    (run_id : String) (entry : Day × String) → IsBalanced (failed_status run_id entry)
unfolding failed_status
failed_status-IsBalanced run_id (day, failure) =
    ledger_row-IsBalanced day "models" "failed" 1 0 run_id (some failure) (omega arith) refl

zero_or_one : (b : Bool) → (if b then 0 else 1) ≤ 1
zero_or_one b = ground arith

failed_iff :
    (o : Option String)
    → string_eq.beq (if is_some o then "failed" else "complete") "complete"
      ≡ ((nat_beq (if is_some o then 0 else 1) 1) && not (is_some o))
failed_iff none = refl
failed_iff (some code) = refl

pub report_status-IsBalanced :
    (failures : Dict Day String) (inventory : Bool) (run_id : String) (day : Day)
    → IsBalanced (report_status failures inventory run_id day)
unfolding report_status
report_status-IsBalanced failures inventory run_id day =
    let failed = is_some (lookup day failures) in
    ledger_row-IsBalanced day (if inventory then "report_inventory" else "report")
      (if failed then "failed" else "complete") 1 (if failed then 0 else 1) run_id
      (lookup day failures) (zero_or_one failed) (failed_iff (lookup day failures))

pub session_statuses-IsBalanced :
    (expected : List SessionIdentity) (rows : List SessionRow) (day : Day) (run_id : String)
    → All IsBalanced (session_statuses expected rows day run_id)
unfolding session_statuses
session_statuses-IsBalanced expected rows day run_id = elim (Bool-cases (is_empty expected)) [
  | inl nothing ↦ rw nothing tt
  | inr some_sessions ↦ rw some_sessions (
      let found = to_set (map session_identity rows) in
      elim (Bool-cases (is_empty (difference expected found))) [
        | inl covered ↦ rw covered (
          ledger_row-IsBalanced day "session_metadata" "complete" (length expected)
              (length (inter expected found)) run_id none (length-inter expected found)
              (ground (arith, length-inter-subset expected found)),
          tt,
        )
        | inr missing ↦ rw missing (
          ledger_row-IsBalanced day "session_metadata" "partial" (length expected)
              (length (inter expected found)) run_id (some "missing_sessions")
              (length-inter expected found) (ground arith),
          tt,
        )
      ])
]

price_outcome_complete :
    (expected succeeded : ℕ) (failure : Option String) (affected : Bool)
    → let o = price_outcome expected succeeded failure affected in
      (o.0 == "complete") ≡ ((succeeded == expected) && not (is_some o.1))
unfolding price_outcome
price_outcome_complete expected succeeded failure true = ground arith
price_outcome_complete expected succeeded none false = elim (Bool-cases (succeeded == expected)) [
  | inl full ↦ rw full refl
  | inr short ↦
      rw short (elim (Bool-cases (succeeded == 0)) [ inl h ↦ rw h refl | inr h ↦ rw h refl ])
]
price_outcome_complete expected succeeded (some code) false =
    elim (Bool-cases (succeeded == expected)) [
      | inl full ↦
          rw full (elim (Bool-cases (succeeded == 0)) [ inl h ↦ rw h refl | inr h ↦ rw h refl ])
      | inr short ↦
          rw short (elim (Bool-cases (succeeded == 0)) [ inl h ↦ rw h refl | inr h ↦ rw h refl ])
    ]

price_status-IsBalanced :
    (existing fetched : Dict Day (List String)) (failures : Dict Day String) (affected : List Day)
    (run_id : String) (entry : Day × List String)
    → IsBalanced (price_status existing fetched failures affected run_id entry)
unfolding price_status
price_status-IsBalanced existing fetched failures affected run_id (day, expected) =
    let covered = union (or_else (lookup day existing) []) (or_else (lookup day fetched) []) in
    let succeeded = length (inter expected covered) in
    let outcome =
      price_outcome (length expected) succeeded (lookup day failures) (contains affected day) in
    ledger_row-IsBalanced day "pricing" outcome.0 (length expected) succeeded run_id outcome.1
      (length-inter expected covered)
      (price_outcome_complete (length expected) succeeded (lookup day failures)
        (contains affected day))

pub models_statuses-IsBalanced :
    (affected days : List Day) (failures : Dict Day String) (run_id : String)
    → All IsBalanced (models_statuses affected days failures run_id)
unfolding models_statuses
models_statuses-IsBalanced affected days failures run_id =
    let fetched = sorted days in
    let failed = sort_by by_failed_day failures in
    All-append IsBalanced (map (models_status affected run_id) fetched)
      (map (failed_status run_id) failed)
      (All-map IsBalanced (models_status affected run_id) fetched
        (All-always (models_status-IsBalanced affected run_id) fetched))
      (All-map IsBalanced (failed_status run_id) failed
        (All-always (failed_status-IsBalanced run_id) failed))

pub price_statuses-IsBalanced :
    (expected existing fetched : Dict Day (List String)) (failures : Dict Day String)
    (affected : List Day) (run_id : String)
    → All IsBalanced (price_statuses expected existing fetched failures affected run_id)
unfolding price_statuses
price_statuses-IsBalanced expected existing fetched failures affected run_id =
    let days = sort_by by_priced_day expected in
    All-map IsBalanced (price_status existing fetched failures affected run_id) days
      (All-always (price_status-IsBalanced existing fetched failures affected run_id) days)
