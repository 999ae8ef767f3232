-- ===== src/Persistence/Planning/RoundTrip.antt =====
-- The rows that a planning stands for, and their reading by `load_ingest_status` of
-- src/usagebassoon/persistence.py.
use mathlib.Core.List.{append-nil, append_assoc}
use usagebassoon.Prelude.{
  String, true, false, Option, List, [], ◌∷◌, ◌++◌, ◌==◌, string_eq, nat_eq, pair_eq, add, contains,
  Dict, lookup, insert, distinct_keys, Result, ok, map, select, sym, ◌≡◌, refl, ◌∙◌,
}
use usagebassoon.Usage.{Day, Time}
use usagebassoon.Ingest.Statuses.{IngestTarget, IngestStatus, SessionIdentity}
use usagebassoon.Orchestrator.{Statuses}
use usagebassoon.Orchestrator.Requests.{models_on}
use usagebassoon.Persistence.Planning.{
  PlanningRow, InvalidRow, fold_rows, add_status, add_model, add_issue, add_drift, StoredDrift,
  add_session, add_missing, Planning, load_planning,
}
use usagebassoon.Persistence.Planning.Folds.{
  fold, add_on_day, fold-insert, contains-fold-add, contains-fold-add_on_day,
}
use usagebassoon.Persistence.Planning.Rows.{
  entry_of, status_row, session_row, missing_row, model_row, issue_row, drift_row, select-after,
  select-before, add_drift-reads, IsOther, map-IsOther, append-IsOther, fold_rows-map,
  fold_rows-after, fold_rows-before, add_status-reads, add_model-reads, add_issue-reads,
  add_missing-reads, add_session-reads,
}

-- The values that the rows of the view stand for.
pub record Stored : Type 0 where
  pub statuses : List IngestStatus
  pub models : List (Day × String)
  pub prices : List (Day × String)
  pub issues : List (String × String)
  pub drifts : List StoredDrift
  pub sessions : Dict SessionIdentity (Option Time)
  pub missing : List SessionIdentity

module _ (stored : Stored) where
  open stored use {statuses, models, prices, issues, drifts, sessions, missing}

  missing_rows : List PlanningRow
  missing_rows = map missing_row missing

  session_rows : List PlanningRow
  session_rows = map session_row sessions ++ missing_rows

  drift_rows : List PlanningRow
  drift_rows = map drift_row drifts ++ session_rows

  issue_rows : List PlanningRow
  issue_rows = map issue_row issues ++ drift_rows

  price_rows : List PlanningRow
  price_rows = map (model_row "prices") prices ++ issue_rows

  model_rows : List PlanningRow
  model_rows = map (model_row "models") models ++ price_rows

  -- The rows of the view.
  pub rows_of : List PlanningRow
  rows_of = map status_row statuses ++ model_rows

  missing-IsOther :
      (kind : String) → ("missing_sessions" == kind) ≡ false → IsOther kind missing_rows
  unfolding missing_rows
  missing-IsOther kind other = map-IsOther kind missing_row missing (λ x. other)

  statuses-read :
      fold_rows "status" add_status rows_of []
      ≡ ok (fold (λ s d. insert (s.day, s.domain) s d) statuses [])
  unfolding rows_of model_rows price_rows issue_rows drift_rows session_rows
  statuses-read =
      fold_rows-before "status" add_status (map status_row statuses) model_rows [] _
        (fold_rows-map "status" add_status status_row (λ s d. insert (s.day, s.domain) s d)
          (λ x. refl) add_status-reads statuses [])
        (append-IsOther "status" (model_row "models") models price_rows (λ x. refl)
          (append-IsOther "status" (model_row "prices") prices issue_rows (λ x. refl)
            (append-IsOther "status" issue_row issues drift_rows (λ x. refl)
              (append-IsOther "status" drift_row drifts session_rows (λ x. refl)
                (append-IsOther "status" session_row sessions missing_rows (λ x. refl)
                  (missing-IsOther "status" refl))))))

  models-read : fold_rows "models" add_model rows_of [] ≡ ok (fold add_on_day models [])
  unfolding rows_of model_rows price_rows issue_rows drift_rows session_rows
  models-read =
      fold_rows-after "models" add_model (map status_row statuses) model_rows []
        (map-IsOther "models" status_row statuses (λ x. refl))
      ∙ fold_rows-before "models" add_model (map (model_row "models") models) price_rows [] _
          (fold_rows-map "models" add_model (model_row "models") add_on_day (λ x. refl)
            (add_model-reads "models") models [])
          (append-IsOther "models" (model_row "prices") prices issue_rows (λ x. refl)
            (append-IsOther "models" issue_row issues drift_rows (λ x. refl)
              (append-IsOther "models" drift_row drifts session_rows (λ x. refl)
                (append-IsOther "models" session_row sessions missing_rows (λ x. refl)
                  (missing-IsOther "models" refl)))))

  prices-read : fold_rows "prices" add_model rows_of [] ≡ ok (fold add_on_day prices [])
  unfolding rows_of model_rows price_rows issue_rows drift_rows session_rows
  prices-read =
      fold_rows-after "prices" add_model (map status_row statuses) model_rows []
        (map-IsOther "prices" status_row statuses (λ x. refl))
      ∙ (fold_rows-after "prices" add_model (map (model_row "models") models) price_rows []
            (map-IsOther "prices" (model_row "models") models (λ x. refl))
          ∙ fold_rows-before "prices" add_model (map (model_row "prices") prices) issue_rows [] _
              (fold_rows-map "prices" add_model (model_row "prices") add_on_day (λ x. refl)
                (add_model-reads "prices") prices [])
              (append-IsOther "prices" issue_row issues drift_rows (λ x. refl)
                (append-IsOther "prices" drift_row drifts session_rows (λ x. refl)
                  (append-IsOther "prices" session_row sessions missing_rows (λ x. refl)
                    (missing-IsOther "prices" refl)))))

  -- The rows of the usage come before those of the diagnostics.
  usage-passed :
      {A : Type 0} (kind : String) (step : PlanningRow → A → Result InvalidRow A) (a : A)
      → ("status" == kind) ≡ false
      → ("models" == kind) ≡ false
      → ("prices" == kind) ≡ false
      → fold_rows kind step rows_of a ≡ fold_rows kind step issue_rows a
  unfolding rows_of model_rows price_rows
  usage-passed kind step a no_status no_models no_prices =
      fold_rows-after kind step (map status_row statuses) model_rows a
        (map-IsOther kind status_row statuses (λ x. no_status))
      ∙ (fold_rows-after kind step (map (model_row "models") models) price_rows a
            (map-IsOther kind (model_row "models") models (λ x. no_models))
          ∙ fold_rows-after kind step (map (model_row "prices") prices) issue_rows a
              (map-IsOther kind (model_row "prices") prices (λ x. no_prices)))

  daily_stats-read :
      select (λ row. row.record_kind == "models") rows_of ≡ map (model_row "models") models
  unfolding rows_of model_rows price_rows issue_rows drift_rows session_rows
  daily_stats-read =
      select-after "models" (map status_row statuses) model_rows
        (map-IsOther "models" status_row statuses (λ x. refl))
      ∙ select-before "models" (model_row "models") models price_rows (λ x. refl)
          (append-IsOther "models" (model_row "prices") prices issue_rows (λ x. refl)
            (append-IsOther "models" issue_row issues drift_rows (λ x. refl)
              (append-IsOther "models" drift_row drifts session_rows (λ x. refl)
                (append-IsOther "models" session_row sessions missing_rows (λ x. refl)
                  (missing-IsOther "models" refl)))))

  issues-read : fold_rows "issues" add_issue rows_of [] ≡ ok (fold add issues [])
  unfolding issue_rows drift_rows session_rows
  issues-read =
      usage-passed "issues" add_issue [] refl refl refl
      ∙ fold_rows-before "issues" add_issue (map issue_row issues) drift_rows [] _
          (fold_rows-map "issues" add_issue issue_row add (λ x. refl) add_issue-reads issues [])
          (append-IsOther "issues" drift_row drifts session_rows (λ x. refl)
            (append-IsOther "issues" session_row sessions missing_rows (λ x. refl)
              (missing-IsOther "issues" refl)))

  drifts-read : fold_rows "drift" add_drift rows_of [] ≡ ok (fold (λ d ds. ds ++ d ∷ []) drifts [])
  unfolding issue_rows drift_rows session_rows
  drifts-read =
      usage-passed "drift" add_drift [] refl refl refl
      ∙ (fold_rows-after "drift" add_drift (map issue_row issues) drift_rows []
            (map-IsOther "drift" issue_row issues (λ x. refl))
          ∙ fold_rows-before "drift" add_drift (map drift_row drifts) session_rows [] _
              (fold_rows-map "drift" add_drift drift_row (λ d ds. ds ++ d ∷ []) (λ x. refl)
                add_drift-reads drifts [])
              (append-IsOther "drift" session_row sessions missing_rows (λ x. refl)
                (missing-IsOther "drift" refl)))

  -- The rows of the issues and of the drift come before those of the sessions.
  diagnostics-passed :
      {A : Type 0} (kind : String) (step : PlanningRow → A → Result InvalidRow A) (a : A)
      → ("issues" == kind) ≡ false
      → ("drift" == kind) ≡ false
      → fold_rows kind step issue_rows a ≡ fold_rows kind step session_rows a
  unfolding issue_rows drift_rows
  diagnostics-passed kind step a no_issues no_drift =
      fold_rows-after kind step (map issue_row issues) drift_rows a
        (map-IsOther kind issue_row issues (λ x. no_issues))
      ∙ fold_rows-after kind step (map drift_row drifts) session_rows a
          (map-IsOther kind drift_row drifts (λ x. no_drift))

  sessions-read :
      fold_rows "sessions" add_session rows_of [] ≡ ok (fold (λ x d. insert x.0 x.1 d) sessions [])
  unfolding session_rows
  sessions-read =
      usage-passed "sessions" add_session [] refl refl refl
      ∙ (diagnostics-passed "sessions" add_session [] refl refl
          ∙ fold_rows-before "sessions" add_session (map session_row sessions) missing_rows [] _
              (fold_rows-map "sessions" add_session session_row (λ x d. insert x.0 x.1 d)
                (λ x. refl) add_session-reads sessions [])
              (missing-IsOther "sessions" refl))

  missing-read : fold_rows "missing_sessions" add_missing rows_of [] ≡ ok (fold add missing [])
  unfolding session_rows missing_rows
  missing-read =
      usage-passed "missing_sessions" add_missing [] refl refl refl
      ∙ (diagnostics-passed "missing_sessions" add_missing [] refl refl
          ∙ (fold_rows-after "missing_sessions" add_missing (map session_row sessions) missing_rows
                [] (map-IsOther "missing_sessions" session_row sessions (λ x. refl))
              ∙ fold_rows-map "missing_sessions" add_missing missing_row add (λ x. refl)
                  add_missing-reads missing []))

-- Values appended in turn are the values in their order.
fold-snoc : (xs before : List StoredDrift) → fold (λ d ds. ds ++ d ∷ []) xs before ≡ before ++ xs
unfolding fold
fold-snoc [] before = sym (append-nil before)
fold-snoc (x ∷ xs) before = fold-snoc xs (before ++ x ∷ []) ∙ append_assoc before (x ∷ []) xs

fold-entry_of :
    (statuses : List IngestStatus) (d : Statuses)
    → fold (λ s acc. insert (s.day, s.domain) s acc) statuses d
      ≡ fold (λ (x : IngestTarget × IngestStatus) acc. insert x.0 x.1 acc) (map entry_of statuses) d
unfolding fold
fold-entry_of [] d = refl
fold-entry_of (s ∷ statuses) d = fold-entry_of statuses (insert (s.day, s.domain) s d)

-- Rows of the kinds and columns that the loops ask for, made from the values that they stand for, give
-- those values back: if there is one status for each day and domain, and one creation time for each
-- session, they are read without an error; the statuses, the sessions and the drift events come back as
-- they are and in their order, the daily usage is made from the rows of the models, and exactly the
-- given models, prices, issues and missing sessions are found.
pub load_planning-rows_of :
    (stored : Stored) (d : Day) (m : String) (issue : String × String) (identity : SessionIdentity)
    → distinct_keys (map entry_of stored.statuses) ≡ true
    → distinct_keys stored.sessions ≡ true
    → (p : Planning) × (load_planning (rows_of stored) ≡ ok p)
      × (p.statuses ≡ map entry_of stored.statuses)
      × (p.inventory.sessions ≡ stored.sessions)
      × (p.drifts ≡ stored.drifts)
      × (p.daily_stats ≡ map (model_row "models") stored.models)
      × (contains (models_on d p.models_by_day) m ≡ contains stored.models (d, m))
      × (contains (models_on d p.prices_by_day) m ≡ contains stored.prices (d, m))
      × (contains p.issues issue ≡ contains stored.issues issue)
      × (contains p.inventory.missing identity ≡ contains stored.missing identity)
unfolding load_planning contains lookup
load_planning-rows_of stored d m issue identity one_status one_creation = (
  record {
    statuses = fold (λ s acc. insert (s.day, s.domain) s acc) stored.statuses [];
    models_by_day = fold add_on_day stored.models [];
    prices_by_day = fold add_on_day stored.prices [];
    issues = fold add stored.issues [];
    drifts = fold (λ d ds. ds ++ d ∷ []) stored.drifts [];
    inventory = record {
      sessions = fold (λ x acc. insert x.0 x.1 acc) stored.sessions [];
      missing = fold add stored.missing [];
    };
    daily_stats = select (λ row. row.record_kind == "models") (rows_of stored);
  },
  rw
      (
        statuses-read stored,
        models-read stored,
        prices-read stored,
        issues-read stored,
        drifts-read stored,
        sessions-read stored,
        missing-read stored,
      )
      refl,
  fold-entry_of stored.statuses [] ∙ fold-insert (map entry_of stored.statuses) [] one_status,
  fold-insert stored.sessions [] one_creation,
  fold-snoc stored.drifts [],
  daily_stats-read stored,
  contains-fold-add_on_day stored.models [] d m,
  contains-fold-add_on_day stored.prices [] d m,
  contains-fold-add stored.issues [] issue,
  contains-fold-add stored.missing [] identity,
)
