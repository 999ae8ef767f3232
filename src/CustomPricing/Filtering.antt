-- ===== src/CustomPricing/Filtering.antt =====
-- What `filter_prices` of src/usagebassoon/collector.py deletes, and what it leaves.
use usagebassoon.Prelude.{
  String, true, false, some, List, [], ◌∷◌, ◌||◌, not, ◌==◌, or_else, ok, Dict, lookup, contains,
  string_eq, nat_eq, ◌≡◌, refl, arith, option_eq, eq_iff, any, is_some, inl, inr, Option-cases,
}
use usagebassoon.Usage.{Day}
use usagebassoon.CustomPricing.{
  Checkpoints, TokscaleProfile, Price, Prices, is_unaffected, filter_day, filter_days,
  filter_prices,
}

-- A model of the day is left with its price unless the transition does not concern it.
filter_day-lookup :
    (p : TokscaleProfile) (observed needed : List String) (prices : Dict String Price)
    (model : String) (price : Price)
    → lookup model prices ≡ some price
    → is_unaffected p observed needed model price ≡ false
    → lookup model (filter_day p observed needed prices).0 ≡ some price
unfolding filter_day lookup
filter_day-lookup p observed needed [] model price h u = ground arith
filter_day-lookup p observed needed ((m, q) ∷ rest) model price h u =
    ground (arith, eq_iff m model, filter_day-lookup p observed needed rest model price)

filter_days-lookup :
    (p : TokscaleProfile) (existing : Dict Day (List String)) (needed : List String)
    (prices : Prices) (day : Day) (observations : Dict String Price)
    → lookup day prices ≡ some observations
    → lookup day (filter_days p existing needed prices).0
      ≡ some (filter_day p (or_else (lookup day existing) []) needed observations).0
unfolding filter_days lookup
filter_days-lookup p existing needed [] day observations h = ground arith
filter_days-lookup p existing needed ((d, o) ∷ rest) day observations h =
    ground (arith, nat_eq.beq_iff d day, filter_days-lookup p existing needed rest day observations)

-- A price that is custom, that the run needs, or that was not observed on its day before stays in
-- the batch to publish, whatever the transition.
filter_prices-keeps :
    (p : TokscaleProfile) (file : Checkpoints) (prices : Prices) (existing : Dict Day (List String))
    (needed : List String) (day : Day) (observations : Dict String Price) (model : String)
    (price : Price)
    → lookup day prices ≡ some observations
    → lookup model observations ≡ some price
    → (price.source == some "Custom")
        || contains needed model
        || not (contains (or_else (lookup day existing) []) model)
      ≡ true
    → (left : Prices) × (kept : Dict String Price) × ((filter_prices true p file prices existing
          needed).result
        ≡ ok left)
      × (lookup day left ≡ some kept)
      × (lookup model kept ≡ some price)
unfolding is_unaffected filter_prices
filter_prices-keeps p file prices existing needed day observations model price h k u = (
  (filter_days p existing needed prices).0,
  (filter_day p (or_else (lookup day existing) []) needed observations).0,
  refl,
  filter_days-lookup p existing needed prices day observations h,
  filter_day-lookup p (or_else (lookup day existing) []) needed observations model price k
      (ground arith),
)

filter_day-needed :
    (p : TokscaleProfile) (observed needed : List String) (prices : Dict String Price)
    (model : String)
    → contains needed model ≡ true
    → is_some (lookup model prices) ≡ true
    → is_some (lookup model (filter_day p observed needed prices).0) ≡ true
unfolding is_unaffected
filter_day-needed p observed needed prices model wanted h =
    elim (Option-cases (lookup model prices)) [
      | inl none_there ↦ ground (arith, h, none_there)
      | inr (price, there) ↦
          ground (arith, filter_day-lookup p observed needed prices model price there, wanted)
    ]

-- A price of a model that the run needs is left under the day that it was fetched for.
pub any-filter_days :
    (p : TokscaleProfile) (existing : Dict Day (List String)) (needed : List String)
    (prices : Prices) (model : String)
    → contains needed model ≡ true
    → any (λ entry. is_some (lookup model entry.1)) prices ≡ true
    → any (λ entry. is_some (lookup model entry.1)) (filter_days p existing needed prices).0 ≡ true
unfolding filter_days
any-filter_days p existing needed [] model wanted h = h
any-filter_days p existing needed ((day, observations) ∷ rest) model wanted h = ground (
  arith,
  h,
  filter_day-needed p (or_else (lookup day existing) []) needed observations model wanted,
  any-filter_days p existing needed rest model wanted,
)
