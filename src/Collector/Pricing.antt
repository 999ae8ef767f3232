-- ===== src/Collector/Pricing.antt =====
-- What `_fetch_pricing` of src/usagebassoon/collector.py makes of every request.
use usagebassoon.Prelude.{
  ℕ, suc, String, Bool, true, false, List, [], ◌∷◌, ◌||◌, ◌==◌, nat_eq, string_eq, pair_eq, nat_ord,
  string_ord, leb, any, contains, union, sorted, contains-union, contains-sorted, contains-append,
  any-sort_by, lookup-insert, is_some, Dict, lookup, insert, or_else, ◌>>=◌, ◌≡◌, refl, arith,
  Bool-cases, Result-cases, inl, inr,
}
use usagebassoon.Usage.{Day}
use usagebassoon.Contract.Json.{Json}
use usagebassoon.Orchestrator.Requests.{ModelsByDay, models_on}
use usagebassoon.Collector.{
  Answer, require_object, PriceFetch, Clock, fetch_price, fetch_models, price_sequence, by_day,
  fetch_pricing,
}

-- A price of the model, or a failure to fetch one, on some day.
unfoldable pub has_outcome : String → PriceFetch → Bool
has_outcome model fetched =
    any (λ entry. is_some (lookup model entry.1)) fetched.prices
    || any (λ entry. contains entry.1 model) fetched.failures

-- Every attempt has an outcome.
AttemptsDone : PriceFetch → Type 0
AttemptsDone fetched =
    (day : Day) (model : String)
    → contains fetched.attempted (day, model) ≡ true
    → has_outcome model fetched ≡ true

any-insert-prices :
    (m model : String) (price : Json) (day : Day) (prices : Dict Day (Dict String Json))
    → any
        (λ entry. is_some (lookup m entry.1))
        (insert day (insert model price (or_else (lookup day prices) [])) prices)
      ≡ ((model == m) || any (λ entry. is_some (lookup m entry.1)) prices)
unfolding insert lookup
any-insert-prices m model price day [] = ground arith
any-insert-prices m model price day ((d, entry) ∷ prices) =
    ground (arith, lookup-insert model m price entry, any-insert-prices m model price day prices)

any-insert-failures :
    (m model : String) (day : Day) (failures : ModelsByDay)
    → any
        (λ entry. contains entry.1 m)
        (insert day (union (models_on day failures) (model ∷ [])) failures)
      ≡ ((model == m) || any (λ entry. contains entry.1 m) failures)
unfolding insert lookup contains
any-insert-failures m model day [] = ground (arith, contains-union [] (model ∷ []) m)
any-insert-failures m model day ((d, entry) ∷ failures) =
    ground (arith, contains-union entry (model ∷ []) m, any-insert-failures m model day failures)

-- Whether a round passes over the model.
abbrev is_passed : ModelsByDay → Clock → String → PriceFetch → Bool
is_passed existing at model fetched =
    contains fetched.attempted (at.0, model) || contains (models_on at.0 existing) model

module _ (ask : String → Answer) (existing : ModelsByDay) (at : Clock) (model m : String)
    (fetched : PriceFetch) where
  round_passed :
      is_passed existing at model fetched ≡ true
      → fetch_price ask existing at model fetched ≡ fetched
  unfolding fetch_price
  round_passed passed = ground (arith, passed)

  -- One round leaves the outcomes that there are, and gives the model one unless it is passed over.
  fetch_price-has_outcome :
      is_passed existing at model fetched ≡ false
      → has_outcome m (fetch_price ask existing at model fetched)
        ≡ ((model == m) || has_outcome m fetched)
  unfolding fetch_price has_outcome
  fetch_price-has_outcome asked = elim (Result-cases (ask model >>= require_object)) [
    | inl (e, failed) ↦
        rw (failed, asked, fetch_price)
          (ground (arith, any-insert-failures m model at.0 fetched.failures))
    | inr (price, answered) ↦
        rw (answered, asked, fetch_price)
          (ground (arith, any-insert-prices m model price at.1 fetched.prices))
  ]

  -- An attempt that a round adds is one of its model.
  fetch_price-attempted :
      (day : Day)
      → is_passed existing at model fetched ≡ false
      → contains (fetch_price ask existing at model fetched).attempted (day, m) ≡ true
      → (contains fetched.attempted (day, m) || (model == m)) ≡ true
  unfolding fetch_price contains
  fetch_price-attempted day asked h = ground (arith, h, asked)

module _ (ask : String → Answer) (existing : ModelsByDay) where
  round-AttemptsDone :
      (at : Clock) (model : String) (fetched : PriceFetch)
      → AttemptsDone fetched
      → AttemptsDone (fetch_price ask existing at model fetched)
  unfolding AttemptsDone
  round-AttemptsDone at model fetched done day m h =
      elim (Bool-cases (is_passed existing at model fetched)) [
        | inl passed ↦
            let same = round_passed ask existing at model m fetched passed in
            ground (arith, same, done day m, h)
        | inr asked ↦ ground (
          arith,
          fetch_price-attempted ask existing at model m fetched day asked h,
          fetch_price-has_outcome ask existing at model m fetched asked,
          done day m,
        )
      ]

  -- A round passes over a model that is not there already only if it was attempted.
  round-outcome :
      (at : Clock) (model m : String) (rest : List String) (fetched : PriceFetch)
      → AttemptsDone fetched
      → contains (models_on at.0 existing) m ≡ false
      → (has_outcome m fetched || contains (model ∷ rest) m) ≡ true
      → (has_outcome m (fetch_price ask existing at model fetched) || contains rest m) ≡ true
  unfolding AttemptsDone contains
  round-outcome at model m rest fetched done missing h =
      elim (Bool-cases (is_passed existing at model fetched)) [
        | inl passed ↦ ground (
          arith,
          round_passed ask existing at model m fetched passed,
          done at.0 m,
          string_eq.beq_iff model m,
          missing,
          passed,
          h,
        )
        | inr asked ↦
            ground (arith, fetch_price-has_outcome ask existing at model m fetched asked, h)
      ]

  fetch_models-has_outcome :
      (clock : ℕ → Clock) (index : ℕ) (m : String) (models : List String) (fetched : PriceFetch)
      → AttemptsDone fetched
      → ((i : ℕ) → contains (models_on (clock i).0 existing) m ≡ false)
      → (has_outcome m fetched || contains models m) ≡ true
      → has_outcome m (fetch_models ask existing clock index models fetched) ≡ true
  unfolding fetch_models
  fetch_models-has_outcome clock index m [] fetched done missing h =
      unfold contains in ground (arith, h)
  fetch_models-has_outcome clock index m (model ∷ models) fetched done missing h =
      fetch_models-has_outcome clock (suc index) m models
        (fetch_price ask existing (clock index) model fetched)
        (round-AttemptsDone (clock index) model fetched done) missing
        (round-outcome (clock index) model m models fetched done (missing index) h)

nothing_attempted : AttemptsDone (record { prices = []; failures = []; attempted = [] })
unfolding AttemptsDone contains
nothing_attempted day m h = cc

contains-price_sequence :
    (m : String) (requests : ModelsByDay)
    → contains (price_sequence requests) m ≡ any (λ entry. contains entry.1 m) requests
unfolding price_sequence contains
contains-price_sequence m [] = refl
contains-price_sequence m ((day, models) ∷ requests) = ground (
  arith,
  contains-append (sorted models) (price_sequence requests) m,
  contains-sorted models m,
  contains-price_sequence m requests,
)

-- Every price that is requested, and that no day of the run has already, is fetched for some day or
-- recorded as a failure on some day, also when the day changes while the loop runs.
pub fetch_pricing-has_outcome :
    (ask : String → Answer) (existing : ModelsByDay) (clock : ℕ → Clock) (requests : ModelsByDay)
    (model : String)
    → any (λ entry. contains entry.1 model) requests ≡ true
    → ((i : ℕ) → contains (models_on (clock i).0 existing) model ≡ false)
    → has_outcome model (fetch_pricing ask existing clock requests) ≡ true
unfolding fetch_pricing by_day
fetch_pricing-has_outcome ask existing clock requests model requested missing =
    fetch_models-has_outcome ask existing clock 0 model (price_sequence (by_day requests))
      (record { prices = []; failures = []; attempted = [] }) nothing_attempted missing
      (ground (
        arith,
        contains-price_sequence model (by_day requests),
        any-sort_by (λ entry. contains entry.1 model) (λ a b. leb a.0 b.0) requests,
        requested,
      ))
