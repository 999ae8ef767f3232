-- ===== src/Persistence/Planning/Rows.antt =====
-- The rows of the view `collection_preflight` that src/usagebassoon/persistence.py reads, and how its
-- loops read them.
use usagebassoon.Prelude.{
  ℕ, String, true, false, Option, none, some, List, [], ◌∷◌, ◌++◌, ◌==◌, string_eq, nat_eq, pair_eq,
  add, Dict, insert, select, ap, if◌then◌else◌, Result, ok, ◌>>=◌, map, ◌≡◌, refl, Result-cases,
  inl, inr, All, All-map, All-always, All-append,
}
use usagebassoon.Usage.{Day, Time}
use usagebassoon.Ingest.Statuses.{IngestTarget, IngestStatus, SessionIdentity}
use usagebassoon.Orchestrator.{Statuses}
use usagebassoon.Orchestrator.Requests.{ModelsByDay}
use usagebassoon.Persistence.Planning.{
  Cell, null, date, text, instant, number, PlanningRow, InvalidRow, fold_rows, add_status,
  add_model, add_issue, add_drift, StoredDrift, add_session, add_missing, optional_text,
  optional_number,
}
use usagebassoon.Persistence.Planning.Folds.{fold, add_on_day}

abbrev empty_row : String → PlanningRow
empty_row kind = record {
  record_kind = kind;
  day = null;
  domain = null;
  status = null;
  run_id = null;
  failure_code = null;
  expected_count = null;
  succeeded_count = null;
  model = null;
  check_name = null;
  issue_key = null;
  client = null;
  session_id = null;
  created_at = null;
  tokscale_ver = null;
  drift_key = null;
  drift_kind = null;
  path = null;
  detail = null;
  contract_tokscale_ver = null;
  observation_count = null;
}

abbrev text_cell : Option String → Cell
text_cell none = null
text_cell (some s) = text s

abbrev number_cell : Option ℕ → Cell
number_cell none = null
number_cell (some n) = number n

abbrev instant_cell : Option Time → Cell
instant_cell none = null
instant_cell (some t) = instant t

-- The entry of a status in the dictionary.
abbrev pub entry_of : IngestStatus → IngestTarget × IngestStatus
entry_of s = ((s.day, s.domain), s)

abbrev pub status_row : IngestStatus → PlanningRow
status_row s = record (empty_row "status") {
  day = date s.day;
  domain = text s.domain;
  status = text s.status;
  run_id = text s.run_id;
  failure_code = text_cell s.failure_code;
  expected_count = number_cell s.expected_count;
  succeeded_count = number_cell s.succeeded_count;
}

abbrev pub session_row : SessionIdentity × Option Time → PlanningRow
session_row ((client, session), created) = record (empty_row "sessions") {
  client = text client;
  session_id = text session;
  created_at = instant_cell created;
}

abbrev pub missing_row : SessionIdentity → PlanningRow
missing_row (client, session) = record (empty_row "missing_sessions") {
  client = text client;
  session_id = text session;
}

abbrev pub model_row : String → Day × String → PlanningRow
model_row kind (day, model) = record (empty_row kind) { day = date day; model = text model }

abbrev pub issue_row : String × String → PlanningRow
issue_row (check_name, issue_key) = record (empty_row "issues") {
  check_name = text check_name;
  issue_key = text issue_key;
}

abbrev pub drift_row : StoredDrift → PlanningRow
drift_row d = record (empty_row "drift") {
  domain = text d.domain;
  tokscale_ver = text d.tokscale_ver;
  drift_key = text d.drift_key;
  drift_kind = text d.drift_kind;
  path = text d.path;
  detail = text d.detail;
  contract_tokscale_ver = text d.contract_tokscale_ver;
  created_at = instant d.created_at;
  observation_count = number d.observation_count;
}

-- The rows are of another kind.
abbrev pub IsOther : String → List PlanningRow → Type 0
IsOther kind rows = All (λ row. (row.record_kind == kind) ≡ false) rows

pub map-IsOther {ℓ} :
    {T : Type ℓ} (kind : String) (row : T → PlanningRow) (xs : List T)
    → ((x : T) → ((row x).record_kind == kind) ≡ false)
    → IsOther kind (map row xs)
map-IsOther kind row xs other =
    All-map (λ (r : PlanningRow). (r.record_kind == kind) ≡ false) row xs (All-always other xs)

pub append-IsOther {ℓ} :
    {T : Type ℓ} (kind : String) (row : T → PlanningRow) (xs : List T) (rest : List PlanningRow)
    → ((x : T) → ((row x).record_kind == kind) ≡ false)
    → IsOther kind rest
    → IsOther kind (map row xs ++ rest)
append-IsOther kind row xs rest other h =
    All-append (λ (r : PlanningRow). (r.record_kind == kind) ≡ false) (map row xs) rest
      (map-IsOther kind row xs other) h

module _ {ℓ} {A : Type ℓ} (kind : String) (step : PlanningRow → A → Result InvalidRow A) where
  fold_rows-append :
      (xs ys : List PlanningRow) (a : A)
      → fold_rows kind step (xs ++ ys) a
        ≡ (fold_rows kind step xs a >>= λ b. fold_rows kind step ys b)
  unfolding fold_rows
  fold_rows-append [] ys a = refl
  fold_rows-append (x ∷ xs) ys a =
      elim (Result-cases (if x.record_kind == kind then step x a else ok a)) [
        | inl (e, failed) ↦ rw failed refl
        | inr (b, went) ↦ rw went (fold_rows-append xs ys b)
      ]

  -- Rows of other kinds are passed over.
  fold_rows-other :
      (rows : List PlanningRow) (a : A)
      → All (λ row. (row.record_kind == kind) ≡ false) rows
      → fold_rows kind step rows a ≡ ok a
  unfolding fold_rows
  fold_rows-other [] a h = refl
  fold_rows-other (x ∷ xs) a h = rw (h.0) (fold_rows-other xs a h.1)

  -- Rows of the kind, each of which is read as one value.
  pub fold_rows-map {κ} :
      {T : Type κ} (row : T → PlanningRow) (f : T → A → A)
      → ((x : T) → ((row x).record_kind == kind) ≡ true)
      → ((x : T) (a : A) → step (row x) a ≡ ok (f x a))
      → (xs : List T) (a : A) → fold_rows kind step (map row xs) a ≡ ok (fold f xs a)
  unfolding fold_rows fold
  fold_rows-map row f same reads [] a = refl
  fold_rows-map row f same reads (x ∷ xs) a =
      rw (same x, reads x a) (fold_rows-map row f same reads xs (f x a))

  pub fold_rows-after :
      (xs ys : List PlanningRow) (a : A)
      → IsOther kind xs
      → fold_rows kind step (xs ++ ys) a ≡ fold_rows kind step ys a
  fold_rows-after xs ys a other = rw (fold_rows-append xs ys a, fold_rows-other xs a other) refl

  pub fold_rows-before :
      (xs ys : List PlanningRow) (a b : A)
      → fold_rows kind step xs a ≡ ok b
      → IsOther kind ys
      → fold_rows kind step (xs ++ ys) a ≡ ok b
  fold_rows-before xs ys a b read other =
      rw (fold_rows-append xs ys a, read) (fold_rows-other ys b other)

optional_text-cell : (o : Option String) → optional_text (text_cell o) ≡ ok o
unfolding optional_text
optional_text-cell none = refl
optional_text-cell (some s) = refl

optional_number-cell : (o : Option ℕ) → optional_number (number_cell o) ≡ ok o
unfolding optional_number
optional_number-cell none = refl
optional_number-cell (some n) = refl

pub add_status-reads :
    (s : IngestStatus) (d : Statuses)
    → add_status (status_row s) d ≡ ok (insert (s.day, s.domain) s d)
unfolding add_status
add_status-reads s d =
    rw
      (
        optional_text-cell s.failure_code,
        optional_number-cell s.expected_count,
        optional_number-cell s.succeeded_count,
      )
      refl

pub add_model-reads :
    (kind : String) (x : Day × String) (d : ModelsByDay)
    → add_model (model_row kind x) d ≡ ok (add_on_day x d)
unfolding add_model
add_model-reads kind (day, model) d = refl

pub add_issue-reads :
    (x : String × String) (d : List (String × String)) → add_issue (issue_row x) d ≡ ok (add x d)
unfolding add_issue
add_issue-reads (check_name, issue_key) d = refl

pub add_drift-reads :
    (x : StoredDrift) (d : List StoredDrift) → add_drift (drift_row x) d ≡ ok (d ++ x ∷ [])
unfolding add_drift
add_drift-reads x d = refl

pub add_missing-reads :
    (x : SessionIdentity) (d : List SessionIdentity) → add_missing (missing_row x) d ≡ ok (add x d)
unfolding add_missing
add_missing-reads (client, session) d = refl

pub add_session-reads :
    (x : SessionIdentity × Option Time) (d : Dict SessionIdentity (Option Time))
    → add_session (session_row x) d ≡ ok (insert x.0 x.1 d)
unfolding add_session
add_session-reads ((client, session), none) d = refl
add_session-reads ((client, session), some created) d = refl

-- The rows of a kind, of rows that are all of it, and of rows that are all of another.
abbrev of_kind : String → List PlanningRow → List PlanningRow
of_kind kind = select (λ row. row.record_kind == kind)

pub select-IsOther :
    (kind : String) (rows : List PlanningRow) → IsOther kind rows → of_kind kind rows ≡ []
select-IsOther kind [] h = refl
select-IsOther kind (row ∷ rows) h = rw (h.0) (select-IsOther kind rows h.1)

pub select-after :
    (kind : String) (xs ys : List PlanningRow)
    → IsOther kind xs
    → of_kind kind (xs ++ ys) ≡ of_kind kind ys
select-after kind [] ys h = refl
select-after kind (x ∷ xs) ys h = rw (h.0) (select-after kind xs ys h.1)

pub select-before {ℓ} :
    {T : Type ℓ} (kind : String) (row : T → PlanningRow) (xs : List T) (ys : List PlanningRow)
    → ((x : T) → ((row x).record_kind == kind) ≡ true)
    → IsOther kind ys
    → of_kind kind (map row xs ++ ys) ≡ map row xs
select-before kind row [] ys same h = select-IsOther kind ys h
select-before kind row (x ∷ xs) ys same h =
    rw (same x) (ap (λ rows. row x ∷ rows) (select-before kind row xs ys same h))
