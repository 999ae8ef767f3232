-- ===== src/Queries/ReadOnly/Safety.antt =====
-- What `validate_read_only_sql` of src/usagebassoon/sql_safety.py lets through.
use usagebassoon.Prelude.{
  ℕ, String, Bool, true, false, Option, none, some, List, [], ◌∷◌, ◌&&◌, ◌||◌, not, ◌==◌, ◌≤◌,
  string_eq, contains, any, all, select, ◌≡◌, refl, arith, Bool-cases, inl, inr, Option-cases, sym,
  ap, ◌∙◌,
}
use usagebassoon.Queries.{public_relations, max_public_query_limit}
use usagebassoon.Queries.ReadOnly.{
  ReadError, Node, LimitExpression, whole, negative, not_whole, computed, Statement,
  allowed_predicate_nodes, is_instance, is_qualified, raise_if, ◌otherwise◌, check_tables,
  check_projections, check_filter, check_where, check_limit, check_statement, check_statements,
  validate_read_only_sql,
}

-- A read of one public relation whose rows are bounded in number.
pub record IsBounded (statement : Statement) : Type 0 where
  pub simple : (contains statement.given "with_" || statement.joins) ≡ false
  plain : any (contains statement.given) ("distinct" ∷ "group" ∷ "having" ∷ "order" ∷ []) ≡ false
  pub no_subquery : any (is_instance "Subquery") statement.nodes ≡ false
  pub no_function : any (is_instance "Func") statement.nodes ≡ false
  pub relation : Node
  pub only_relation : select (is_instance "Table") statement.nodes ≡ relation ∷ []
  pub is_public : contains public_relations relation.name ≡ true
  pub unqualified : (relation.db == "" && relation.catalog == "") ≡ true
  pub columns_only :
      all (λ p. is_instance "Column" p || is_instance "Star" p) statement.projections ≡ true
  pub no_other_columns : any is_qualified statement.projections ≡ false
  filter_nodes :
      (nodes : List Node)
      → statement.filter ≡ some nodes
      → all
          (λ node. contains allowed_predicate_nodes node.type_name && not (is_qualified node))
          nodes
        ≡ true
  pub rows : ℕ
  pub rows_limit : statement.limit ≡ some (whole rows)
  pub some_rows : 1 ≤ rows
  pub few_rows : rows ≤ max_public_query_limit

otherwise-none :
    (first rest : Option ReadError) → (first otherwise rest) ≡ none → (first ≡ none) × (rest ≡ none)
unfolding ◌otherwise◌
otherwise-none none rest h = (refl, h)
otherwise-none (some e) rest h = cc

raise_if-none : (b : Bool) (e : ReadError) → raise_if b e ≡ none → b ≡ false
unfolding raise_if
raise_if-none true e h = cc
raise_if-none false e h = refl

check_tables-one :
    (tables : List Node)
    → check_tables tables ≡ none
    → (table : Node) × (tables ≡ table ∷ [])
      × (contains public_relations table.name ≡ true)
      × ((table.db == "" && table.catalog == "") ≡ true)
unfolding check_tables
check_tables-one [] h = cc
check_tables-one (table ∷ []) h =
    let supported = raise_if-none _ _ h in
    (table, refl, ground (arith, supported), ground (arith, supported))
check_tables-one (table ∷ another ∷ rest) h = cc

check_projections-none :
    (projections : List Node)
    → check_projections projections ≡ none
    → any is_qualified projections ≡ false
unfolding check_projections raise_if ◌otherwise◌
check_projections-none [] h = refl
check_projections-none (projection ∷ projections) h =
    ground (arith, h, check_projections-none projections)

check_projections-columns :
    (projections : List Node)
    → check_projections projections ≡ none
    → all (λ p. is_instance "Column" p || is_instance "Star" p) projections ≡ true
unfolding check_projections raise_if ◌otherwise◌
check_projections-columns [] h = refl
check_projections-columns (projection ∷ projections) h =
    ground (arith, h, check_projections-columns projections)

check_filter-none :
    (nodes : List Node)
    → check_filter nodes ≡ none
    → all (λ node. contains allowed_predicate_nodes node.type_name && not (is_qualified node)) nodes
      ≡ true
unfolding check_filter raise_if ◌otherwise◌
check_filter-none [] h = refl
check_filter-none (node ∷ nodes) h = ground (arith, h, check_filter-none nodes)

check_limit-none :
    (limit : Option LimitExpression)
    → check_limit limit ≡ none
    → (rows : ℕ) × (limit ≡ some (whole rows)) × (1 ≤ rows) × (rows ≤ max_public_query_limit)
unfolding check_limit
check_limit-none none h = cc
check_limit-none (some computed) h = cc
check_limit-none (some not_whole) h = cc
check_limit-none (some negative) h = cc
check_limit-none (some (whole rows)) h =
    let within = raise_if-none _ _ h in (rows, refl, ground (arith, within), ground (arith, within))

check_statement-IsBounded :
    (statement : Statement) → check_statement statement ≡ none → IsBounded statement
unfolding check_statement check_where
check_statement-IsBounded statement h =
    let (simple, after1) = otherwise-none _ _ h in
    let (plain, after2) = otherwise-none _ _ after1 in
    let (subquery, after3) = otherwise-none _ _ after2 in
    let (function, after4) = otherwise-none _ _ after3 in
    let (tables, after5) = otherwise-none _ _ after4 in
    let (projections, after6) = otherwise-none _ _ after5 in
    let (filter, limit) = otherwise-none _ _ after6 in
    let one = check_tables-one _ tables in
    let bound = check_limit-none statement.limit limit in
    record {
      simple = raise_if-none _ _ simple;
      plain = raise_if-none _ _ plain;
      no_subquery = raise_if-none _ _ subquery;
      no_function = raise_if-none _ _ function;
      relation = one.0;
      only_relation = one.1;
      is_public = one.2;
      unqualified = one.3;
      columns_only = check_projections-columns statement.projections projections;
      no_other_columns = check_projections-none statement.projections projections;
      filter_nodes = λ nodes given. check_filter-none nodes (sym (ap check_where given) ∙ filter);
      rows = bound.0;
      rows_limit = bound.1;
      some_rows = bound.2;
      few_rows = bound.3;
    }

check_statements-IsBounded :
    (statements : List Statement)
    → check_statements statements ≡ none
    → (statement : Statement) × (statements ≡ statement ∷ [])
      × (statement.is_select ≡ true)
      × IsBounded statement
unfolding check_statements
check_statements-IsBounded [] h = cc
check_statements-IsBounded (statement ∷ another ∷ rest) h = cc
check_statements-IsBounded (statement ∷ []) h = elim (Bool-cases statement.is_select) [
  | inl selects ↦ (statement, refl, selects, check_statement-IsBounded statement (rw selects at h))
  | inr no_select ↦ ground (arith, h, no_select)
]

-- A text that is let through is one statement: a SELECT of one public relation that stands without a
-- database or catalog, with no common table expression, join, subquery, function, DISTINCT, GROUP BY,
-- HAVING or ORDER BY; its projections are columns or stars, none of a named table; the nodes of its
-- filter are allowlisted and name no table; and its limit is a literal from 1 to 10000. Other clauses,
-- as OFFSET, are not excluded.
pub validate_read_only_sql-IsBounded :
    (parse : String → String → Option (List Statement)) (sql dialect : String)
    → validate_read_only_sql parse sql dialect ≡ none
    → (statement : Statement) × (parse sql dialect ≡ some (statement ∷ []))
      × (statement.is_select ≡ true)
      × IsBounded statement
unfolding validate_read_only_sql
validate_read_only_sql-IsBounded parse sql dialect h = elim (Option-cases (parse sql dialect)) [
  | inl nothing ↦ ground (arith, h, nothing)
  | inr (statements, parsed) ↦
      let accepted : check_statements statements ≡ none =
        rw (parsed, validate_read_only_sql) at h in
      let (statement, single, selects, bounded) = check_statements-IsBounded statements accepted in
      (statement, parsed ∙ ap some single, selects, bounded)
]
