-- ===== src/Report/Tests.antt =====
-- Runs of the report's merge in src/usagebassoon/parsers/report.py on two rows of one session.
use usagebassoon.Prelude.{
  ℕ, String, Option, none, some, List, [], ◌∷◌, min, max, values, Dict, All, ◌≡◌, refl, arith,
  lookup, insert, string_eq, pair_eq,
}
use usagebassoon.Usage.{SessionRow}
use usagebassoon.Report.{SessionKey, Sessions, session_key, report_rows, parse_report}
use usagebassoon.Report.Laws.{}

abbrev pub session : Option ℕ → Option ℕ → List String → SessionRow
session created active models = record {
  client = "codex";
  session_id = "s1";
  workspace = some "/w";
  workspace_label = some "w";
  created_at = created;
  last_active = active;
  duration_minutes = none;
  total_input_tokens = 1;
  total_output_tokens = 2;
  total_cache_read = none;
  message_count = 3;
  tokscale_cost_usd = 4;
  models_used = models;
}

abbrev repeated : List SessionRow
repeated = session (some 20) (some 40) ("a" ∷ []) ∷ session (some 10) (some 30) ("b" ∷ []) ∷ []

abbrev merged : Sessions
merged = (("codex", "s1"), session (some 10) (some 40) ("a" ∷ "b" ∷ [])) ∷ []

report_rows-of-repeated : report_rows [] repeated ≡ some merged
unfolding report_rows usagebassoon.Report.report_row lookup insert
    usagebassoon.Report.merge_duplicate_session usagebassoon.Report.newest_report_row
    usagebassoon.Report.combine_times usagebassoon.Report.merge_models usagebassoon.Prelude.contains
report_rows-of-repeated = refl

abbrev same_workspace : SessionKey → Option String × Option String
same_workspace key = (some "/w", some "w")
