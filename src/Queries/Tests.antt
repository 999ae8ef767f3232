-- ===== src/Queries/Tests.antt =====
-- Queries of src/usagebassoon/sql_safety.py that are built or validated.
use usagebassoon.Prelude.{
  String, Bool, true, false, Option, none, some, List, [], ◌∷◌, ◌&&◌, contains, all, string_eq,
  Dict, ok, err, ◌≡◌, refl,
}
use usagebassoon.Queries.{
  FilterValue, text, other, count, build_relation_query, invalid_value, invalid_identifier,
}
use usagebassoon.Queries.Laws.{with_values, first_of, build_relation_query-values}

abbrev two_filters : Dict String FilterValue
two_filters = ("client", text "codex") ∷ ("session_id", text "' OR 1 = 1") ∷ []

query-of-two :
    build_relation_query "session_notes" two_filters (count 50) "bigquery"
    ≡ ok (
      "SELECT * FROM `session_notes` WHERE `client` = :filter_0 AND `session_id` = :filter_1 LIMIT 50",
      ("filter_0", "codex") ∷ ("filter_1", "' OR 1 = 1") ∷ [],
    )
unfolding build_relation_query contains usagebassoon.Prelude.insert
query-of-two = refl

query-of-number :
    build_relation_query "session_notes" (("client", other) ∷ []) (count 50) "duckdb"
    ≡ err invalid_value
unfolding build_relation_query contains
query-of-number = refl

query-of-statement :
    build_relation_query "session_notes" (("client; --", text "") ∷ []) (count 50) "duckdb"
    ≡ err invalid_identifier
unfolding build_relation_query contains
query-of-statement = refl

abbrev quiet : String → String
quiet value = ""

build_relation_query-values_example :
    first_of
      (build_relation_query "session_notes" (with_values quiet two_filters) (count 50) "duckdb")
    ≡ first_of (build_relation_query "session_notes" two_filters (count 50) "duckdb")
build_relation_query-values_example =
    build_relation_query-values "session_notes" two_filters (count 50) "duckdb" quiet
