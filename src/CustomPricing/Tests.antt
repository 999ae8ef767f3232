-- ===== src/CustomPricing/Tests.antt =====
-- Runs of the pricing transition of src/usagebassoon/collector.py: a first run with custom
-- pricing, one known model, and an existing price of it.
use usagebassoon.Prelude.{
  ℕ, String, Bool, true, false, Option, none, some, List, [], ◌∷◌, ◌&&◌, not, if◌then◌else◌, Dict,
  lookup, contains, union, subset, ok, ◌≡◌, refl, string_eq, nat_eq, arith,
}
use usagebassoon.CustomPricing.{
  initial_state, Checkpoints, read_pricing_state, TokscaleProfile, Price, Prices, refresh_set,
  prepare_prices, filter_prices, acknowledge_prices,
}
use usagebassoon.CustomPricing.Transition.{
  IsCurrent, StaysPending, prepare_prices-StaysPending, refresh-survives,
}

abbrev first_run : TokscaleProfile
first_run = record {
  target = "warehouse";
  custom_present = true;
  state = record initial_state { observed_at = 7 };
  refresh_models = [];
  ignored_models = [];
}

abbrev no_file : Checkpoints
no_file = []

first_run-IsCurrent : IsCurrent first_run no_file
unfolding read_pricing_state lookup
first_run-IsCurrent = omega arith

opus-refreshed : contains (refresh_set first_run ("opus" ∷ []) []) "opus" ≡ true
unfolding refresh_set contains union usagebassoon.Prelude.add
opus-refreshed = refl

prepare_prices-StaysPending_example :
    StaysPending "warehouse" "opus" (prepare_prices true first_run no_file ("opus" ∷ []) []).file
prepare_prices-StaysPending_example =
    prepare_prices-StaysPending first_run no_file ("opus" ∷ []) [] "opus" first_run-IsCurrent
      opus-refreshed

abbrev automatic : Price
automatic = record { source = some "LiteLLM"; document = "{}" }

abbrev custom_price : Price
custom_price = record { source = some "Custom"; document = "{}" }

abbrev day_prices : Prices
day_prices = (10, ("opus", custom_price) ∷ ("haiku", automatic) ∷ []) ∷ []

abbrev prepared : TokscaleProfile
prepared = (prepare_prices true first_run no_file ("opus" ∷ []) []).profile

opus-kept :
    contains
      (filter_prices true prepared no_file day_prices [] ("opus" ∷ [])).profile.ignored_models
      "opus"
    ≡ false
unfolding prepare_prices filter_prices contains union usagebassoon.Prelude.add
opus-kept = refl

-- The next run finds the checkpoint that the first one left.
abbrev left_file : Checkpoints
left_file =
    let a = prepare_prices true first_run no_file ("opus" ∷ []) [] in
    let b = filter_prices true a.profile a.file day_prices [] [] in
    (acknowledge_prices true b.profile b.file [] []).file

abbrev next_run : TokscaleProfile
next_run = record first_run { state = read_pricing_state left_file "warehouse" }

nothing-ignored :
    contains
      (filter_prices true prepared
        (prepare_prices true first_run no_file ("opus" ∷ []) []).file
        day_prices
        []
        []).profile.ignored_models
      "opus"
    ≡ false
unfolding prepare_prices filter_prices contains union usagebassoon.Prelude.add lookup
nothing-ignored = refl

abbrev nothing : List String
nothing = []

nothing-published : contains nothing "opus" ≡ false
unfolding contains
nothing-published = refl

refresh-survives_example : contains (refresh_set next_run [] []) "opus" ≡ true
refresh-survives_example =
    refresh-survives first_run no_file ("opus" ∷ []) [] true day_prices [] [] true [] [] next_run []
      [] "opus" first_run-IsCurrent opus-refreshed nothing-ignored nothing-published refl
