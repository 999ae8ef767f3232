-- ===== src/Queries.antt =====
-- The queries of src/usagebassoon/sql_safety.py: `build_relation_query`, and `validate_read_only_sql`
-- in Queries.ReadOnly.
mod Laws
mod ReadOnly
mod Tests
use Prim.Native.Char.{code}
use Prim.Native.Nat.{◌%◌}
use Prim.Native.String.{◌++◌ as append, slice}
use usagebassoon.Prelude.{
  ℕ, zero, suc, ◌/◌, ◌<◌, String, Bool, true, false, List, [], ◌∷◌, ◌++◌, ◌&&◌, ◌||◌, not, ◌==◌,
  string_eq, nat_eq, leb, ltb, contains, Dict, insert, if◌then◌else◌, Result, ok, err, ◌>>=◌, ◌≡◌,
  refl, ap, arith, Bool-cases, inl, inr,
}

pub data QueryError : Type 0 where
  unsupported_relation : QueryError
  invalid_limit : QueryError
  invalid_value : QueryError
  invalid_identifier : QueryError

-- A value that is a `str`, and any other.
pub data FilterValue : Type 0 where
  text : String → FilterValue
  other : FilterValue

-- A limit that is a natural number, and any other: a negative number, a `bool`, another object.
pub data Limit : Type 0 where
  count : ℕ → Limit
  other_limit : Limit

abbrev pub public_relations : List String
public_relations =
    "daily_cost" ∷ "noted_sessions" ∷ "report_models" ∷ "report_summary_models" ∷ "report_summary"
    ∷ "report_daily_usage" ∷ "report_session_models" ∷ "session_model_stats" ∷ "session_notes"
    ∷ "session_tags" ∷ "tagged_sessions" ∷ []

abbrev pub max_public_query_limit : ℕ
max_public_query_limit = 10000

-- `dialect_for_backend`
dialect_for_backend : String → String
dialect_for_backend backend = if backend == "motherduck" then "duckdb" else backend

is_word_start : ℕ → Bool
is_word_start c = (leb b'A' c && leb c b'Z') || (leb b'a' c && leb c b'z') || (c == b'_')

all_word : String → Bool
unfolding is_word_start
all_word String.[] = true
all_word (String.◌∷◌ c s) =
    (is_word_start (code c) || (leb b'0' (code c) && leb (code c) b'9')) && all_word s

-- `value.isascii() and value.isidentifier()`
unfoldable pub is_simple_identifier : String → Bool
unfolding all_word is_word_start
is_simple_identifier String.[] = false
is_simple_identifier (String.◌∷◌ c s) = is_word_start (code c) && all_word s

-- `_identifier`
pub identifier : String → String → Result QueryError String
unfolding is_simple_identifier
identifier value quote =
    if is_simple_identifier value
    then ok (append quote (append value quote))
    else err invalid_identifier

-- The decimal digits of a number, with as many steps as are given.
decimal_from : ℕ → ℕ → String
decimal_from zero n = ""
decimal_from (suc steps) n =
    let rest = decimal_from steps (n / 10) in
    append (if ltb n 10 then "" else rest) (slice "0123456789" (n % 10) (suc (n % 10)))

-- An integer as an f-string writes it.
decimal : ℕ → String
unfolding decimal_from
decimal n = decimal_from (suc n) n

-- `f"filter_{index}"`
parameter_name : ℕ → String
parameter_name index = append "filter_" (decimal index)

-- The loop over the filters: the predicates and the parameters that it adds to.
pub bind_filters :
    String
    → ℕ
    → Dict String FilterValue
    → List String
    → Dict String String
    → Result QueryError (List String × Dict String String)
unfolding identifier decimal parameter_name
bind_filters quote index [] predicates parameters = ok (predicates, parameters)
bind_filters quote index ((column, other) ∷ filters) predicates parameters = err invalid_value
bind_filters quote index ((column, text value) ∷ filters) predicates parameters =
    identifier column quote >>= λ quoted.
    bind_filters quote (suc index) filters
      (predicates ++ append quoted (append " = :" (parameter_name index)) ∷ [])
      (insert (parameter_name index) value parameters)

-- `' AND '.join(predicates)`
and_joined : List String → String
and_joined [] = ""
and_joined (predicate ∷ []) = predicate
and_joined (predicate ∷ another ∷ rest) =
    append predicate (append " AND " (and_joined (another ∷ rest)))

where_clause : List String → String
unfolding and_joined
where_clause [] = ""
where_clause (predicate ∷ rest) = append " WHERE " (and_joined (predicate ∷ rest))

-- The text of the query, from its predicates on.
pub query_text : String → String → ℕ → List String → Result QueryError String
unfolding identifier decimal where_clause
query_text relation quote limit predicates = identifier relation quote >>= λ quoted. ok (
    append "SELECT * FROM "
      (append quoted (append (where_clause predicates) (append " LIMIT " (decimal limit)))))

abbrev pub quote_of : String → String
quote_of dialect = if dialect == "bigquery" then "`" else "\""

-- `build_relation_query`: the text of the query and its parameters.
pub build_relation_query :
    String
    → Dict String FilterValue
    → Limit
    → String
    → Result QueryError (String × Dict String String)
unfolding bind_filters query_text
build_relation_query relation filters other_limit dialect =
    if not (contains public_relations relation) then err unsupported_relation else err invalid_limit
build_relation_query relation filters (count limit) dialect =
    let quote = quote_of dialect in
    if not (contains public_relations relation)
    then err unsupported_relation
    else if not (leb 1 limit && leb limit max_public_query_limit)
    then err invalid_limit
    else bind_filters quote 0 filters [] [] >>= λ bound.
        query_text relation quote limit bound.0 >>= λ sql. ok (sql, bound.1)

-- More steps than the number write the same digits.
decimal-steps : (a b n : ℕ) → n < a → n < b → decimal_from a n ≡ decimal_from b n
unfolding decimal_from
decimal-steps zero b n h g = ground (arith, h)
decimal-steps (suc a) zero n h g = ground (arith, g)
decimal-steps (suc a) (suc b) n h g = elim (Bool-cases (ltb n 10)) [
  | inl small ↦ rw small refl
  | inr large ↦
      let less : n / 10 < n = ground (arith, large) in
      rw large (
        ap (λ rest. append rest (slice "0123456789" (n % 10) (suc (n % 10))))
          (decimal-steps a b (n / 10) (omega (arith, less, h)) (omega (arith, less, g))))
]
