-- ===== src/Persistence/Planning.antt =====
-- `load_ingest_status` of src/usagebassoon/persistence.py: the rows of the view
-- `collection_preflight`, which the backend's query answers, become what a run plans with.
pub mod Folds
pub mod Rows
pub mod RoundTrip
mod Tests
use usagebassoon.Prelude.{
  ℕ, String, Bool, true, false, Option, none, some, List, [], ◌∷◌, ◌++◌, ◌==◌, string_eq, nat_eq,
  pair_eq, add, contains, Dict, lookup, insert, or_else, select, if◌then◌else◌, Result, ok, err,
  ◌>>=◌,
}
use usagebassoon.Usage.{Day, Time}
use usagebassoon.Ingest.Statuses.{IngestTarget, IngestStatus, SessionIdentity}
use usagebassoon.Orchestrator.{Statuses}
use usagebassoon.Orchestrator.Requests.{ModelsByDay, models_on, ReportInventory}

-- A cell of a row, by its Python type.
pub data Cell : Type 0 where
  null : Cell
  date : Day → Cell
  text : String → Cell
  instant : Time → Cell
  number : ℕ → Cell

-- A row of the view, in the columns that are read.
pub record PlanningRow : Type 0 where
  pub record_kind : String
  pub day : Cell
  pub domain : Cell
  pub status : Cell
  pub run_id : Cell
  pub failure_code : Cell
  pub expected_count : Cell
  pub succeeded_count : Cell
  pub model : Cell
  pub check_name : Cell
  pub issue_key : Cell
  pub client : Cell
  pub session_id : Cell
  pub created_at : Cell
  pub tokscale_ver : Cell
  pub drift_key : Cell
  pub drift_kind : Cell
  pub path : Cell
  pub detail : Cell
  pub contract_tokscale_ver : Cell
  pub observation_count : Cell

-- The `RuntimeError` of the loops.
pub data InvalidRow : Type 0 where
  invalid_row : InvalidRow

as_date : Cell → Result InvalidRow Day
as_date (date day) = ok day
as_date _ = err invalid_row

as_text : Cell → Result InvalidRow String
as_text (text s) = ok s
as_text _ = err invalid_row

pub optional_text : Cell → Result InvalidRow (Option String)
optional_text null = ok none
optional_text (text s) = ok (some s)
optional_text _ = err invalid_row

pub optional_number : Cell → Result InvalidRow (Option ℕ)
optional_number null = ok none
optional_number (number n) = ok (some n)
optional_number _ = err invalid_row

as_instant : Cell → Result InvalidRow Time
as_instant (instant t) = ok t
as_instant _ = err invalid_row

as_number : Cell → Result InvalidRow ℕ
as_number (number n) = ok n
as_number _ = err invalid_row

optional_instant : Cell → Result InvalidRow (Option Time)
optional_instant null = ok none
optional_instant (instant t) = ok (some t)
optional_instant _ = err invalid_row

-- The loop over the rows of one kind.
pub fold_rows {ℓ} :
    {A : Type ℓ}
    → String
    → (PlanningRow → A → Result InvalidRow A)
    → List PlanningRow
    → A
    → Result InvalidRow A
fold_rows kind step [] a = ok a
fold_rows kind step (row ∷ rows) a =
    let first = if row.record_kind == kind then step row a else ok a in
    first >>= λ next. fold_rows kind step rows next

-- A row of kind `status`.
pub add_status : PlanningRow → Statuses → Result InvalidRow Statuses
unfolding as_date as_text optional_text optional_number
add_status row statuses = do
  day ← as_date row.day
  domain ← as_text row.domain
  status ← as_text row.status
  run_id ← as_text row.run_id
  failure_code ← optional_text row.failure_code
  expected_count ← optional_number row.expected_count
  succeeded_count ← optional_number row.succeeded_count
  let read : IngestStatus = record {
    day = day;
    domain = domain;
    status = status;
    expected_count = expected_count;
    succeeded_count = succeeded_count;
    run_id = run_id;
    failure_code = failure_code;
  }
  ok (insert (day, domain) read statuses)

-- A row of kind `models` or `prices`: `setdefault(day, set()).add(model)`.
pub add_model : PlanningRow → ModelsByDay → Result InvalidRow ModelsByDay
unfolding as_date as_text
add_model row by_day = do
  day ← as_date row.day
  model ← as_text row.model
  ok (insert day (add model (models_on day by_day)) by_day)

pub add_issue : PlanningRow → List (String × String) → Result InvalidRow (List (String × String))
unfolding as_text
add_issue row issues = do
  check_name ← as_text row.check_name
  issue_key ← as_text row.issue_key
  ok (add (check_name, issue_key) issues)

-- `PayloadDriftState`, with the texts that the store has.
pub record StoredDrift : Type 0 where
  pub domain : String
  pub tokscale_ver : String
  pub drift_key : String
  pub drift_kind : String
  pub path : String
  pub detail : String
  pub contract_tokscale_ver : String
  pub created_at : Time
  pub observation_count : ℕ

pub add_drift : PlanningRow → List StoredDrift → Result InvalidRow (List StoredDrift)
unfolding as_text as_instant as_number
add_drift row drifts = do
  domain ← as_text row.domain
  tokscale_ver ← as_text row.tokscale_ver
  drift_key ← as_text row.drift_key
  drift_kind ← as_text row.drift_kind
  path ← as_text row.path
  detail ← as_text row.detail
  contract_tokscale_ver ← as_text row.contract_tokscale_ver
  created_at ← as_instant row.created_at
  observation_count ← as_number row.observation_count
  ok (
      drifts
      ++ record {
        domain = domain;
        tokscale_ver = tokscale_ver;
        drift_key = drift_key;
        drift_kind = drift_kind;
        path = path;
        detail = detail;
        contract_tokscale_ver = contract_tokscale_ver;
        created_at = created_at;
        observation_count = observation_count;
      }
        ∷ [])

pub add_session :
    PlanningRow
    → Dict SessionIdentity (Option Time)
    → Result InvalidRow (Dict SessionIdentity (Option Time))
unfolding as_text optional_instant
add_session row sessions = do
  client ← as_text row.client
  session ← as_text row.session_id
  created ← optional_instant row.created_at
  ok (insert (client, session) created sessions)

pub add_missing : PlanningRow → List SessionIdentity → Result InvalidRow (List SessionIdentity)
unfolding as_text
add_missing row missing = do
  client ← as_text row.client
  session ← as_text row.session_id
  ok (add (client, session) missing)

-- What a run plans with. The table of daily usage is the rows that it is made from.
pub record Planning : Type 0 where
  pub statuses : Statuses
  pub models_by_day : ModelsByDay
  pub prices_by_day : ModelsByDay
  pub issues : List (String × String)
  pub drifts : List StoredDrift
  pub inventory : ReportInventory
  pub daily_stats : List PlanningRow

-- `load_ingest_status`, on the rows that the query answers.
pub load_planning : List PlanningRow → Result InvalidRow Planning
unfolding fold_rows add_status add_model add_issue add_drift add_session add_missing
load_planning rows = do
  statuses ← fold_rows "status" add_status rows []
  models ← fold_rows "models" add_model rows []
  prices ← fold_rows "prices" add_model rows []
  issues ← fold_rows "issues" add_issue rows []
  drifts ← fold_rows "drift" add_drift rows []
  sessions ← fold_rows "sessions" add_session rows []
  missing ← fold_rows "missing_sessions" add_missing rows []
  ok (record {
    statuses = statuses;
    models_by_day = models;
    prices_by_day = prices;
    issues = issues;
    drifts = drifts;
    inventory = record { sessions = sessions; missing = missing };
    daily_stats = select (λ row. row.record_kind == "models") rows;
  })
