-- ===== src/Queries/ReadOnly.antt =====
-- `validate_read_only_sql` of src/usagebassoon/sql_safety.py. What it asks of sqlglot's tree is a
-- record, and the parser of a dialect a parameter.
mod Safety
mod Tests
use usagebassoon.Prelude.{
  ℕ, String, Bool, true, false, Option, none, some, List, [], ◌∷◌, ◌&&◌, ◌||◌, not, ◌==◌, ◌≤◌,
  string_eq, leb, contains, any, all, select, is_empty, if◌then◌else◌, ◌≡◌, refl, arith, Bool-cases,
  inl, inr,
}
use usagebassoon.Queries.{public_relations, max_public_query_limit}

pub data ReadError : Type 0 where
  malformed : ReadError
  not_one_select : ReadError
  composite : ReadError
  beyond_filters : ReadError
  has_subquery : ReadError
  has_function : ReadError
  not_one_relation : ReadError
  private_relation : ReadError
  odd_projection : ReadError
  qualified_projection : ReadError
  odd_filter : ReadError
  qualified_filter : ReadError
  no_limit : ReadError
  odd_limit : ReadError
  limit_out_of_range : ReadError

-- A node of the tree: the classes of `exp` that it is an instance of, `type(node).__name__`, and the
-- attributes `name`, `table`, `db` and `catalog`, which are empty where it has none.
pub record Node : Type 0 where
  pub classes : List String
  pub type_name : String
  pub name : String
  pub table : String
  pub db : String
  pub catalog : String

-- The expression of a limit: a literal whose `int` is a natural number, negative or none, or an
-- expression that is not a literal.
pub data LimitExpression : Type 0 where
  whole : ℕ → LimitExpression
  negative : LimitExpression
  not_whole : LimitExpression
  computed : LimitExpression

-- A statement: the arguments that are not `None`, whether it has joins, what `find_all` goes through,
-- the projections, the nodes of the filter and the limit.
pub record Statement : Type 0 where
  pub is_select : Bool
  pub given : List String
  pub joins : Bool
  pub nodes : List Node
  pub projections : List Node
  pub filter : Option (List Node)
  pub limit : Option LimitExpression

abbrev pub allowed_predicate_nodes : List String
allowed_predicate_nodes =
    "And" ∷ "Boolean" ∷ "Column" ∷ "EQ" ∷ "GTE" ∷ "GT" ∷ "In" ∷ "Is" ∷ "LTE" ∷ "LT" ∷ "Literal"
    ∷ "NEQ" ∷ "Not" ∷ "Null" ∷ "Or" ∷ "Paren" ∷ "Placeholder" ∷ "Identifier" ∷ "Where" ∷ []

pub is_instance : String → Node → Bool
is_instance type node = contains node.classes type

-- A column that names its table.
pub is_qualified : Node → Bool
unfolding is_instance
is_qualified node = is_instance "Column" node && not (node.table == "")

-- The first of two parts of the code to raise. The result of the whole is `none` when it returns.
infixr 3 ◌otherwise◌
◌otherwise◌ : Option ReadError → Option ReadError → Option ReadError
some e otherwise rest = some e
none otherwise rest = rest

raise_if : Bool → ReadError → Option ReadError
raise_if true e = some e
raise_if false e = none

-- `tables`, of which there has to be one, that is public and not qualified.
check_tables : List Node → Option ReadError
unfolding raise_if
check_tables [] = some not_one_relation
check_tables (table ∷ []) =
    raise_if
      (not (contains public_relations table.name)
        || not (table.db == "")
        || not (table.catalog == ""))
      private_relation
check_tables (table ∷ another ∷ rest) = some not_one_relation

check_projections : List Node → Option ReadError
unfolding raise_if ◌otherwise◌
check_projections [] = none
check_projections (projection ∷ projections) =
    raise_if (not (is_instance "Column" projection || is_instance "Star" projection)) odd_projection
    otherwise raise_if (is_qualified projection) qualified_projection
    otherwise check_projections projections

check_filter : List Node → Option ReadError
unfolding raise_if ◌otherwise◌
check_filter [] = none
check_filter (node ∷ nodes) =
    raise_if (not (contains allowed_predicate_nodes node.type_name)) odd_filter
    otherwise raise_if (is_qualified node) qualified_filter
    otherwise check_filter nodes

check_where : Option (List Node) → Option ReadError
unfolding check_filter
check_where none = none
check_where (some nodes) = check_filter nodes

check_limit : Option LimitExpression → Option ReadError
unfolding raise_if
check_limit none = some no_limit
check_limit (some computed) = some no_limit
check_limit (some not_whole) = some odd_limit
check_limit (some negative) = some limit_out_of_range
check_limit (some (whole n)) =
    raise_if (not (leb 1 n && leb n max_public_query_limit)) limit_out_of_range

pub check_statement : Statement → Option ReadError
unfolding raise_if ◌otherwise◌ check_tables check_projections check_where check_limit is_instance
check_statement statement =
    raise_if (contains statement.given "with_" || statement.joins) composite
    otherwise raise_if
        (any (contains statement.given) ("distinct" ∷ "group" ∷ "having" ∷ "order" ∷ []))
        beyond_filters
    otherwise raise_if (any (is_instance "Subquery") statement.nodes) has_subquery
    otherwise raise_if (any (is_instance "Func") statement.nodes) has_function
    otherwise check_tables (select (is_instance "Table") statement.nodes)
    otherwise check_projections statement.projections
    otherwise check_where statement.filter
    otherwise check_limit statement.limit

check_statements : List Statement → Option ReadError
unfolding check_statement
check_statements [] = some not_one_select
check_statements (statement ∷ []) =
    if not statement.is_select then some not_one_select else check_statement statement
check_statements (statement ∷ another ∷ rest) = some not_one_select

-- `validate_read_only_sql`, with what `parse` returns for a text and a dialect. It returns where this
-- is `none`.
pub validate_read_only_sql :
    (String → String → Option (List Statement)) → String → String → Option ReadError
unfolding check_statements
validate_read_only_sql parse sql dialect = elim (parse sql dialect) [
  | none ↦ some malformed
  | some statements ↦ check_statements statements
]
