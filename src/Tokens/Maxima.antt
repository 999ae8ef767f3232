-- ===== src/Tokens/Maxima.antt =====
-- What `preserve_daily_tokens` of src/usagebassoon/storage_model.py guarantees of the rows it accepts.
use usagebassoon.Prelude.{
  ℕ, ◌≤◌, max, false, Option, none, some, List, [], ◌∷◌, or_else, Dict, lookup, string_eq, nat_eq,
  pair_eq, triple_eq, ◌≡◌, refl, ap, sym, ◌∙◌, Bool-cases, arith, All, Option-cases, inl, inr,
}
use usagebassoon.Tokens.{
  Tokens, DailyKey, Incoming, Stored, token_sum, is_stale, max_tokens, raised_row, preserve_row,
  prior_rows, preserve_rows, preserve_daily_tokens,
}

-- No count of the accepted row is below the stored one, and its total covers its components.
pub record Dominates (previous : Stored) (kept : Incoming) : Type 0 where
  pub input : or_else previous.tokens.input_tokens 0 ≤ kept.tokens.input_tokens
  pub output : or_else previous.tokens.output_tokens 0 ≤ kept.tokens.output_tokens
  pub cache_read : or_else previous.tokens.cache_read 0 ≤ kept.tokens.cache_read
  pub cache_write : or_else previous.tokens.cache_write 0 ≤ kept.tokens.cache_write
  pub reasoning : or_else previous.tokens.reasoning 0 ≤ kept.tokens.reasoning
  pub total : previous.total_tokens ≤ kept.total_tokens
  pub covered : token_sum kept.tokens ≤ kept.total_tokens
  pub newer : is_stale kept previous ≡ false

-- Raising the total of a row that is newer leaves it newer.
is_stale-raised :
    (row : Incoming) (p : Stored) (tokens : Tokens ℕ) (total : ℕ)
    → row.total_tokens ≤ total
    → is_stale row p ≡ false
    → is_stale (record row { tokens = tokens; total_tokens = total }) p ≡ false
unfolding is_stale
is_stale-raised row p tokens total h s = ground arith

raised_row-Dominates :
    (row : Incoming) (p : Stored) → is_stale row p ≡ false → Dominates p (raised_row row p)
unfolding raised_row max_tokens
raised_row-Dominates row p h = record {
  input = omega arith;
  output = omega arith;
  cache_read = omega arith;
  cache_write = omega arith;
  reasoning = omega arith;
  total = omega arith;
  covered = omega arith;
  newer = is_stale-raised row p _ _ (omega arith) h;
}

-- What the accepted version of a row keeps of it, and what it owes to the stored row.
pub record Keeps (found : Option Stored) (row kept : Incoming) : Type 0 where
  pub row_key : kept.row_key ≡ row.row_key
  pub event_id : kept.event_id ≡ row.event_id
  pub metadata : kept.metadata ≡ row.metadata
  pub collected_at : kept.collected_at ≡ row.collected_at
  pub stored : (p : Stored) → found ≡ some p → Dominates p kept

preserve_row-Keeps :
    (found : Option Stored) (row kept : Incoming)
    → preserve_row found row ≡ some kept
    → Keeps found row kept
unfolding preserve_row raised_row
preserve_row-Keeps none row kept h =
    let e : row ≡ kept = ground arith in
    rw (← e) (record {
      row_key = refl;
      event_id = refl;
      metadata = refl;
      collected_at = refl;
      stored = λ p q. absurd (ground arith);
    })
preserve_row-Keeps (some p) row kept h = elim (Bool-cases (is_stale row p)) [
  | inl stale ↦ absurd (ground arith)
  | inr newer ↦
      let e : raised_row row p ≡ kept = ground arith in
      rw (← e) (record {
        row_key = refl;
        event_id = refl;
        metadata = refl;
        collected_at = refl;
        stored = λ q r.
            let same : p ≡ q = ground arith in rw (← same) (raised_row-Dominates row p newer);
      })
]

-- Every row that is accepted dominates the stored row of its key, if there is one.
abbrev pub DominatesPrior : Dict DailyKey Stored → Incoming → Type 0
DominatesPrior prior kept = (p : Stored) → lookup kept.row_key prior ≡ some p → Dominates p kept

preserve_rows-Dominates :
    (prior : Dict DailyKey Stored) (rows : List Incoming)
    → All (DominatesPrior prior) (preserve_rows prior rows)
unfolding preserve_rows
preserve_rows-Dominates prior [] = tt
preserve_rows-Dominates prior (row ∷ rows) =
    let ih = preserve_rows-Dominates prior rows in
    elim (Option-cases (preserve_row (lookup row.row_key prior) row)) [
      | inl dropped ↦ rw (dropped, preserve_rows) ih
      | inr (kept, e) ↦
          let k = preserve_row-Keeps (lookup row.row_key prior) row kept e in
          rw (e, preserve_rows)
            (λ p f. k.stored p (ap (λ j. lookup j prior) (sym k.row_key) ∙ f), ih)
    ]

-- No published row lowers a recorded count: every row that is accepted has at least the stored
-- count in each component and in its total, a total that covers its components, and comes after
-- the stored row in the order of freshness.
pub preserve_daily_tokens-Dominates :
    (incoming : List Incoming) (current : List Stored)
    → All (DominatesPrior (prior_rows current [])) (preserve_daily_tokens incoming current)
unfolding preserve_daily_tokens
preserve_daily_tokens-Dominates incoming current =
    preserve_rows-Dominates (prior_rows current []) incoming

-- A row that dominates the stored one passes unchanged.
max_tokens-Dominates :
    (row : Incoming) (p : Stored) → Dominates p row → max_tokens row.tokens p.tokens ≡ row.tokens
unfolding max_tokens
max_tokens-Dominates row p d = ground arith

raised_row_self : (row : Incoming) (p : Stored) → Dominates p row → raised_row row p ≡ row
unfolding raised_row
raised_row_self row p d =
    let t = max_tokens-Dominates row p d in
    let u : max (max p.total_tokens row.total_tokens) (token_sum (max_tokens row.tokens p.tokens))
        ≡ row.total_tokens =
      rw t (omega arith) in
    λ i. record row { tokens = t i; total_tokens = u i }

preserve_row_self :
    (found : Option Stored) (row : Incoming)
    → ((p : Stored) → found ≡ some p → Dominates p row)
    → preserve_row found row ≡ some row
unfolding preserve_row
preserve_row_self none row h = refl
preserve_row_self (some p) row h =
    let d = h p refl in rw d.newer (ap (λ r. some r) (raised_row_self row p d))

preserve_rows_self :
    (prior : Dict DailyKey Stored) (rows : List Incoming)
    → All (DominatesPrior prior) rows
    → preserve_rows prior rows ≡ rows
unfolding preserve_rows
preserve_rows_self prior [] h = refl
preserve_rows_self prior (row ∷ rows) h =
    ground (
      arith,
      preserve_row_self (lookup row.row_key prior) row h.0,
      preserve_rows_self prior rows h.1,
    )

-- Preparing a prepared batch again, against the same stored rows, changes nothing.
preserve_daily_tokens_idem :
    (incoming : List Incoming) (current : List Stored)
    → preserve_daily_tokens (preserve_daily_tokens incoming current) current
      ≡ preserve_daily_tokens incoming current
unfolding preserve_daily_tokens
preserve_daily_tokens_idem incoming current =
    preserve_rows_self (prior_rows current []) (preserve_rows (prior_rows current []) incoming)
      (preserve_rows-Dominates (prior_rows current []) incoming)
