-- ===== src/Orchestrator/Prices.antt =====
-- The prices of a collection from the request to the ledger: the calls that `_collect_locked` of
-- src/usagebassoon/orchestrator.py makes in turn.
use usagebassoon.Prelude.{
  ℕ, String, Bool, true, false, List, [], ◌∷◌, ◌||◌, nat_eq, string_eq, any, contains, union,
  difference, inter, is_empty, is_some, map, Dict, lookup, insert, keys, contains-union,
  contains-difference, contains-inter, ◌≡◌, refl, arith, Bool-cases, inl, inr,
}
use usagebassoon.Usage.{Day}
use usagebassoon.Contract.Json.{Json}
use usagebassoon.Orchestrator.Requests.{
  ModelsByDay, models_on, price_requests, add_expected, add_failed, fetched_prices, expected_prices,
  nonempty,
}
use usagebassoon.CustomPricing.{TokscaleProfile, Price, Prices, filter_days}
use usagebassoon.CustomPricing.Filtering.{any-filter_days}
use usagebassoon.Collector.{Answer, Clock, fetch_pricing}
use usagebassoon.Collector.Pricing.{has_outcome, fetch_pricing-has_outcome}

-- `{day: models - refresh_prices for day, models in persisted_prices.items()}`
unfoldable pub existing_prices : List String → ModelsByDay → ModelsByDay
existing_prices refresh [] = []
existing_prices refresh ((day, models) ∷ persisted) =
    (day, difference models refresh) ∷ existing_prices refresh persisted

-- The fetched prices as the price documents that they are.
documents : (Json → Price) → Dict Day (Dict String Json) → Prices
documents read [] = []
documents read ((day, prices) ∷ fetched) =
    (day, map (λ entry. (entry.0, read entry.1)) prices) ∷ documents read fetched

-- The models of every day of the prices.
priced_by_day : Prices → ModelsByDay
priced_by_day [] = []
priced_by_day ((day, prices) ∷ fetched) = (day, keys prices) ∷ priced_by_day fetched

-- From the needed models to the prices that the ledger expects. The profile is the one that
-- `prepare_prices` leaves; a checkpoint of `filter_prices` that cannot be written ends the run.
pub collect_prices :
    (String → Answer)
    → (ℕ → Clock)
    → (Json → Price)
    → TokscaleProfile
    → Day
    → List String
    → ModelsByDay
    → ModelsByDay
unfolding existing_prices documents priced_by_day
collect_prices ask clock read profile observation_day needed persisted_prices =
    let requests : ModelsByDay =
      (
        observation_day,
        price_requests observation_day needed persisted_prices profile.refresh_models,
      )
      ∷ [] in
    let fetched =
      fetch_pricing ask (existing_prices profile.refresh_models persisted_prices) clock requests in
    let filtered =
      filter_days profile persisted_prices
        (difference needed (models_on observation_day persisted_prices))
        (documents read fetched.prices) in
    expected_prices observation_day needed persisted_prices (priced_by_day filtered.0)
      fetched.failures

-- The model stands under some day.
abbrev anywhere : String → ModelsByDay → Bool
anywhere m by_day = any (λ entry. contains entry.1 m) by_day

anywhere-add_expected :
    (m : String) (day : Day) (models : List String) (expected : ModelsByDay)
    → anywhere m (add_expected day models expected) ≡ (contains models m || anywhere m expected)
unfolding add_expected insert lookup contains
anywhere-add_expected m day models [] = ground (arith, contains-union [] models m)
anywhere-add_expected m day models ((d, entry) ∷ expected) =
    ground (arith, contains-union entry models m, anywhere-add_expected m day models expected)

anywhere-add_failed :
    (m : String) (failures expected : ModelsByDay)
    → anywhere m (add_failed failures expected) ≡ (anywhere m failures || anywhere m expected)
unfolding add_failed
anywhere-add_failed m [] expected = refl
anywhere-add_failed m ((day, models) ∷ failures) expected = ground (
  arith,
  anywhere-add_failed m failures (add_expected day models expected),
  anywhere-add_expected m day models expected,
)

anywhere-fetched_prices :
    (m : String) (failures fetched : ModelsByDay)
    → anywhere m fetched ≡ true
    → anywhere m (fetched_prices failures fetched) ≡ true
unfolding fetched_prices
anywhere-fetched_prices m failures [] h = ground (arith, h)
anywhere-fetched_prices m failures ((day, models) ∷ fetched) h = ground (
  arith,
  h,
  contains-union models (models_on day failures) m,
  anywhere-fetched_prices m failures fetched,
)

contains-keys :
    (m : String) (prices : Dict String Price) → contains (keys prices) m ≡ is_some (lookup m prices)
unfolding lookup contains
contains-keys m [] = refl
contains-keys m ((k, price) ∷ prices) = ground (arith, contains-keys m prices)

lookup-read :
    (read : Json → Price) (m : String) (prices : Dict String Json)
    → is_some (lookup m (map (λ entry. (entry.0, read entry.1)) prices)) ≡ is_some (lookup m prices)
unfolding lookup
lookup-read read m [] = refl
lookup-read read m ((k, price) ∷ prices) = ground (arith, lookup-read read m prices)

any-documents :
    (read : Json → Price) (m : String) (fetched : Dict Day (Dict String Json))
    → any (λ entry. is_some (lookup m entry.1)) (documents read fetched)
      ≡ any (λ entry. is_some (lookup m entry.1)) fetched
unfolding documents
any-documents read m [] = refl
any-documents read m ((day, prices) ∷ fetched) =
    ground (arith, lookup-read read m prices, any-documents read m fetched)

anywhere-priced_by_day :
    (m : String) (prices : Prices)
    → anywhere m (priced_by_day prices) ≡ any (λ entry. is_some (lookup m entry.1)) prices
unfolding priced_by_day
anywhere-priced_by_day m [] = refl
anywhere-priced_by_day m ((day, prices) ∷ rest) =
    ground (arith, contains-keys m prices, anywhere-priced_by_day m rest)

-- Every model that a run needs a price of, and that is not stored already under a day on which the
-- run makes a request, is expected in the ledger on some day: it was fetched, it failed, or it was
-- stored on the observation day. The filter of a custom pricing transition does not take it away.
pub collect_prices-anywhere :
    (ask : String → Answer) (clock : ℕ → Clock) (read : Json → Price) (profile : TokscaleProfile)
    (observation_day : Day) (needed : List String) (persisted_prices : ModelsByDay) (m : String)
    → contains needed m ≡ true
    → ((i : ℕ)
        → contains
            (models_on (clock i).0 (existing_prices profile.refresh_models persisted_prices))
            m
          ≡ false)
    → any
        (λ entry. contains entry.1 m)
        (collect_prices ask clock read profile observation_day needed persisted_prices)
      ≡ true
unfolding collect_prices expected_prices price_requests
collect_prices-anywhere ask clock read profile observation_day needed persisted_prices m wanted
      missing =
    let stored = models_on observation_day persisted_prices in
    let existing = existing_prices profile.refresh_models persisted_prices in
    let already = inter needed stored in
    let lacking = difference needed stored in
    let requests : ModelsByDay = (observation_day, union lacking profile.refresh_models) ∷ [] in
    let fetched = fetch_pricing ask existing clock requests in
    let left = (filter_days profile persisted_prices lacking (documents read fetched.prices)).0 in
    let base = fetched_prices fetched.failures (priced_by_day left) in
    let listed = add_failed fetched.failures base in
    elim (Bool-cases (contains stored m)) [
      | inl there ↦
          let both : contains already m ≡ true =
            ground (arith, contains-inter needed stored m, wanted, there) in
          rw (nonempty already m both)
            (ground (arith, anywhere-add_expected m observation_day already listed, both))
      | inr absent ↦
          let lacks : contains lacking m ≡ true =
            ground (arith, contains-difference needed stored m, wanted, absent) in
          let requested : any (λ entry. contains entry.1 m) requests ≡ true =
            ground (arith, contains-union lacking profile.refresh_models m, lacks) in
          let outcome = fetch_pricing-has_outcome ask existing clock requests m requested missing in
          let found : anywhere m listed ≡ true =
            unfold has_outcome in
            ground (
              arith,
              outcome,
              anywhere-add_failed m fetched.failures base,
              anywhere-fetched_prices m fetched.failures (priced_by_day left),
              anywhere-priced_by_day m left,
              any-filter_days profile persisted_prices lacking (documents read fetched.prices) m
                  lacks,
              any-documents read m fetched.prices,
            ) in
          elim (Bool-cases (is_empty already)) [
            | inl nothing ↦ rw nothing found
            | inr some_stored ↦
                rw some_stored
                  (ground (arith, anywhere-add_expected m observation_day already listed, found))
          ]
    ]
