-- ===== src/Persistence/Planning/Tests.antt =====
-- A run of the reading of `collection_preflight` in src/usagebassoon/persistence.py.
use usagebassoon.Prelude.{
  true, none, some, [], ◌∷◌, contains, distinct_keys, map, ok, err, ◌≡◌, refl, nat_eq, string_eq,
  pair_eq,
}
use usagebassoon.Ingest.Statuses.{IngestStatus}
use usagebassoon.Orchestrator.Requests.{models_on}
use usagebassoon.Persistence.Planning.{
  Planning, StoredDrift, load_planning, null, text, invalid_row,
}
use usagebassoon.Persistence.Planning.Rows.{entry_of, status_row, model_row, drift_row}
use usagebassoon.Persistence.Planning.RoundTrip.{Stored, rows_of, load_planning-rows_of}

abbrev partial_day : IngestStatus
partial_day = record {
  day = 4;
  domain = "models";
  status = "partial";
  expected_count = some 1;
  succeeded_count = some 0;
  run_id = "run";
  failure_code = some "reconciliation";
}

abbrev drifted : StoredDrift
drifted = record {
  domain = "graph";
  tokscale_ver = "2.1.0";
  drift_key = "k";
  drift_kind = "missing";
  path = "$.contributions";
  detail = "array";
  contract_tokscale_ver = "2.0.0";
  created_at = 7;
  observation_count = 2;
}

abbrev stored : Stored
stored = record {
  statuses = partial_day ∷ [];
  models = (4, "opus") ∷ (4, "haiku") ∷ (4, "opus") ∷ [];
  prices = (4, "opus") ∷ [];
  issues = ("input", "4") ∷ [];
  drifts = drifted ∷ [];
  sessions = (("codex", "s1"), some 9) ∷ (("codex", "s2"), none) ∷ [];
  missing = ("codex", "s3") ∷ [];
}

one_status : distinct_keys (map entry_of stored.statuses) ≡ true
unfolding distinct_keys contains
one_status = refl

one_creation : distinct_keys stored.sessions ≡ true
unfolding distinct_keys contains
one_creation = refl

-- A status without a day is refused.
dateless-refused :
    load_planning (record (status_row partial_day) { day = text "today" } ∷ []) ≡ err invalid_row
unfolding load_planning
dateless-refused = refl

-- A drift event without a time is refused.
timeless-refused :
    load_planning (record (drift_row drifted) { created_at = null } ∷ []) ≡ err invalid_row
unfolding load_planning
timeless-refused = refl

load_planning-rows_of_example :
    (p : Planning) × (load_planning (rows_of stored) ≡ ok p)
    × (p.statuses ≡ map entry_of stored.statuses)
    × (p.inventory.sessions ≡ stored.sessions)
    × (p.drifts ≡ stored.drifts)
    × (p.daily_stats ≡ map (model_row "models") stored.models)
    × (contains (models_on 4 p.models_by_day) "haiku" ≡ contains stored.models (4, "haiku"))
    × (contains (models_on 4 p.prices_by_day) "haiku" ≡ contains stored.prices (4, "haiku"))
    × (contains p.issues ("input", "4") ≡ contains stored.issues ("input", "4"))
    × (contains p.inventory.missing ("codex", "s3") ≡ contains stored.missing ("codex", "s3"))
load_planning-rows_of_example =
    load_planning-rows_of stored 4 "haiku" ("input", "4") ("codex", "s3") one_status one_creation
