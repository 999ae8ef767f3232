-- ===== src/Queries/ReadOnly/Tests.antt =====
-- Statements that `validate_read_only_sql` of src/usagebassoon/sql_safety.py decides on.
use usagebassoon.Prelude.{String, Bool, true, false, Option, none, some, List, [], ◌∷◌, ◌≡◌, refl}
use usagebassoon.Queries.ReadOnly.{Node, whole, Statement, validate_read_only_sql, has_function}
use usagebassoon.Queries.ReadOnly.Safety.{IsBounded, validate_read_only_sql-IsBounded}

abbrev node : List String → String → String → Node
node classes type_name name = record {
  classes = classes;
  type_name = type_name;
  name = name;
  table = "";
  db = "";
  catalog = "";
}

abbrev star : Node
star = node ("Star" ∷ []) "Star" "*"

abbrev notes : Node
notes = node ("Table" ∷ []) "Table" "session_notes"

abbrev condition : List Node
condition =
    node ("Where" ∷ []) "Where" ""
    ∷ node ("EQ" ∷ []) "EQ" ""
    ∷ node ("Column" ∷ []) "Column" "client"
    ∷ node ("Literal" ∷ []) "Literal" "codex"
    ∷ []

-- SELECT * FROM session_notes WHERE client = 'codex' LIMIT 5
abbrev select_notes : Statement
select_notes = record {
  is_select = true;
  given = "from_" ∷ "where" ∷ "limit" ∷ [];
  joins = false;
  nodes = star ∷ notes ∷ condition;
  projections = star ∷ [];
  filter = some condition;
  limit = some (whole 5);
}

abbrev parse_notes : String → String → Option (List Statement)
parse_notes sql dialect = some (select_notes ∷ [])

abbrev parse_call : String → String → Option (List Statement)
parse_call sql dialect = some (
    record select_notes { nodes = notes ∷ node ("Anonymous" ∷ "Func" ∷ []) "Anonymous" "f" ∷ [] }
    ∷ [])

validate-of-call :
    validate_read_only_sql parse_call "SELECT f() FROM session_notes" "duckdb" ≡ some has_function
unfolding validate_read_only_sql usagebassoon.Prelude.contains
validate-of-call = refl

select_notes-accepted :
    validate_read_only_sql parse_notes "SELECT * FROM session_notes WHERE client = 'codex' LIMIT 5"
      "duckdb"
    ≡ none
unfolding validate_read_only_sql usagebassoon.Prelude.contains
    usagebassoon.Queries.ReadOnly.is_qualified
select_notes-accepted = refl

validate_read_only_sql-IsBounded_example :
    (statement : Statement) × (parse_notes
        "SELECT * FROM session_notes WHERE client = 'codex' LIMIT 5" "duckdb"
      ≡ some (statement ∷ []))
    × (statement.is_select ≡ true)
    × IsBounded statement
validate_read_only_sql-IsBounded_example =
    validate_read_only_sql-IsBounded parse_notes
      "SELECT * FROM session_notes WHERE client = 'codex' LIMIT 5" "duckdb" select_notes-accepted
