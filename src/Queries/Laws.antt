-- ===== src/Queries/Laws.antt =====
-- What `build_relation_query` of src/usagebassoon/sql_safety.py accepts, and what its text depends on.
use usagebassoon.Prelude.{
  ℕ, suc, String, Bool, true, false, List, [], ◌∷◌, ◌&&◌, leb, contains, Dict, string_eq, Result,
  ok, err, ◌>>=◌, Result-cases, ◌≡◌, refl, arith, Bool-cases, inl, inr, all, ◌∙◌, sym, ap, nat_eq,
}
use usagebassoon.Queries.{
  QueryError, FilterValue, text, other, Limit, count, other_limit, public_relations,
  max_public_query_limit, is_simple_identifier, identifier, parameter_name, bind_filters,
  query_text, quote_of, build_relation_query,
}

-- Another value for a filter, where it is a text.
replaced : (String → String) → FilterValue → FilterValue
replaced g (text value) = text (g value)
replaced g other = other

pub with_values : (String → String) → Dict String FilterValue → Dict String FilterValue
with_values g [] = []
with_values g ((column, value) ∷ filters) = (column, replaced g value) ∷ with_values g filters

abbrev pub first_of {ℓ κ} :
    {A : Type ℓ} {B : Type κ} → Result QueryError (A × B) → Result QueryError A
first_of (ok pair) = ok pair.0
first_of (err e) = err e

first_of->>= {ℓ κ μ} :
    {A : Type ℓ} {B : Type κ} {C : Type μ} (f : A → Result QueryError C)
    (r : Result QueryError (A × B))
    → first_of (r >>= λ p. f p.0 >>= λ c. ok (c, p.1)) ≡ first_of r >>= f
first_of->>= f (err e) = refl
first_of->>= f (ok pair) = elim (Result-cases (f pair.0)) [
  | inl (e, raised) ↦ rw raised refl
  | inr (c, returned) ↦ rw returned refl
]

-- The predicates do not depend on the values or on the parameters so far.
bind_filters-values :
    (g : String → String) (quote : String) (index : ℕ) (filters : Dict String FilterValue)
    (predicates : List String) (left right : Dict String String)
    → first_of (bind_filters quote index (with_values g filters) predicates left)
      ≡ first_of (bind_filters quote index filters predicates right)
unfolding bind_filters with_values replaced
bind_filters-values g quote index [] predicates left right = refl
bind_filters-values g quote index ((column, other) ∷ filters) predicates left right = refl
bind_filters-values g quote index ((column, text value) ∷ filters) predicates left right =
    elim (Result-cases (identifier column quote)) [
      | inl (e, raised) ↦ rw raised refl
      | inr (quoted, returned) ↦ rw returned (bind_filters-values g quote (suc index) filters _ _ _)
    ]

-- Other values for the filters leave the text of the query as it is, and whether there is an error and
-- which: a value reaches the query as a parameter alone.
pub build_relation_query-values :
    (relation : String) (filters : Dict String FilterValue) (limit : Limit) (dialect : String)
    (g : String → String)
    → first_of (build_relation_query relation (with_values g filters) limit dialect)
      ≡ first_of (build_relation_query relation filters limit dialect)
unfolding build_relation_query
build_relation_query-values relation filters other_limit dialect g = refl
build_relation_query-values relation filters (count limit) dialect g =
    let quote = quote_of dialect in
    let after = query_text relation quote limit in
    let same =
      first_of->>= after (bind_filters quote 0 (with_values g filters) [] [])
      ∙ ap (λ r. r >>= after) (bind_filters-values g quote 0 filters [] [] [])
      ∙ sym (first_of->>= after (bind_filters quote 0 filters [] [])) in
    elim (Bool-cases (contains public_relations relation)) [
      | inl public ↦ elim (Bool-cases (leb 1 limit && leb limit max_public_query_limit)) [
        | inl within ↦ rw public (rw within same)
        | inr beyond ↦ rw public (rw beyond refl)
      ]
      | inr private ↦ rw private refl
    ]

-- A filter whose column is a simple identifier and whose value is a text.
pub is_sound : String × FilterValue → Bool
is_sound (column, text value) = is_simple_identifier column
is_sound (column, other) = false

pub in_range : Limit → Bool
in_range (count limit) = leb 1 limit && leb limit 10000
in_range other_limit = false

abbrev pub is_ok {ℓ} : {A : Type ℓ} → Result QueryError A → Bool
is_ok (ok a) = true
is_ok (err e) = false

is_ok-bind_filters :
    (quote : String) (index : ℕ) (filters : Dict String FilterValue) (predicates : List String)
    (parameters : Dict String String)
    → is_ok (bind_filters quote index filters predicates parameters) ≡ all is_sound filters
unfolding bind_filters is_sound identifier
is_ok-bind_filters quote index [] predicates parameters = refl
is_ok-bind_filters quote index ((column, other) ∷ filters) predicates parameters = refl
is_ok-bind_filters quote index ((column, text value) ∷ filters) predicates parameters =
    elim (Bool-cases (is_simple_identifier column)) [
      | inl simple ↦ rw simple (is_ok-bind_filters quote (suc index) filters _ _)
      | inr odd ↦ rw odd refl
    ]

all-contains :
    (p : String → Bool) (xs : List String) (x : String)
    → all p xs ≡ true
    → contains xs x ≡ true
    → p x ≡ true
unfolding contains
all-contains p [] x h g = cc
all-contains p (y ∷ xs) x h g =
    ground (arith, h, g, all-contains p xs x, string_eq.beq_iff y x, λ (same : y ≡ x). ap p same)

public-simple :
    (relation : String)
    → contains public_relations relation ≡ true
    → is_simple_identifier relation ≡ true
unfolding is_simple_identifier usagebassoon.Queries.all_word usagebassoon.Queries.is_word_start
public-simple relation = all-contains is_simple_identifier public_relations relation refl

is_ok->>= {ℓ κ} :
    {A : Type ℓ} {B : Type κ} (r : Result QueryError A) (f : A → Result QueryError B)
    → ((a : A) → is_ok (f a) ≡ true)
    → is_ok (r >>= f) ≡ is_ok r
is_ok->>= (err e) f h = refl
is_ok->>= (ok a) f h = h a

-- There is a query exactly for a public relation, with a limit from 1 to 10000, where every filter's
-- column is a simple identifier and its value a text.
build_relation_query-ok :
    (relation : String) (filters : Dict String FilterValue) (limit : Limit) (dialect : String)
    → is_ok (build_relation_query relation filters limit dialect)
      ≡ (contains public_relations relation && in_range limit && all is_sound filters)
unfolding build_relation_query in_range
build_relation_query-ok relation filters other_limit dialect = ground arith
build_relation_query-ok relation filters (count limit) dialect =
    elim (Bool-cases (contains public_relations relation)) [
      | inl public ↦ elim (Bool-cases (leb 1 limit && leb limit max_public_query_limit)) [
        | inl within ↦ rw public (
            rw within (
              is_ok->>= (bind_filters (quote_of dialect) 0 filters [] []) _ (λ bound.
                unfold query_text in unfold identifier in rw (public-simple relation public) refl)
              ∙ is_ok-bind_filters (quote_of dialect) 0 filters [] []))
        | inr beyond ↦ rw public (rw beyond refl)
      ]
      | inr private ↦ rw private refl
    ]
