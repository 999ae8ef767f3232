-- ===== src/CustomPricing.antt =====
-- Custom-pricing control: `_CustomPricingState`, `TokscaleProfile` and the local checkpoint of
-- src/usagebassoon/collector.py. A run prepares the transition, fetches prices, drops those that
-- the transition does not concern, publishes, and acknowledges what was published.
-- The checkpoint file is a dictionary from destinations to states that have been decoded; a
-- missing or invalid entry reads as the initial state. Each write takes a Boolean, whether the
-- lock, the staging file and the replacement all succeed: where it is false the write raises.
pub mod Transition
pub mod Filtering
pub mod Tests
use usagebassoon.Prelude.{
  ℕ, String, Bool, true, false, Option, none, some, List, [], ◌∷◌, ◌&&◌, not, ◌==◌, ltb,
  if◌then◌else◌, or_else, is_empty, Dict, lookup, insert, contains, union, difference, Result, ok,
  err, string_eq, nat_eq, option_eq, Eq, ◌≡◌, ◌↔◌, refl, arith, add,
}
use usagebassoon.Usage.{Day, Time}

pub record PricingState : Type 0 where
  pub present : Option Bool
  pub models : List String
  pub pending : List String
  pub observed_at : Time

-- The defaults of `_CustomPricingState`: `datetime.min` is time 0.
abbrev pub initial_state : PricingState
initial_state = record { present = none; models = []; pending = []; observed_at = 0 }

abbrev pub Checkpoints : Type 0
Checkpoints = Dict String PricingState

-- `_read_pricing_state` on a decoded catalog
pub read_pricing_state : Checkpoints → String → PricingState
read_pricing_state file target = or_else (lookup target file) initial_state

-- `_write_pricing_state`: a newer checkpoint of another run is kept.
pub write_pricing_state : Checkpoints → String → PricingState → Checkpoints
unfolding read_pricing_state
write_pricing_state file target state =
    if ltb state.observed_at (read_pricing_state file target).observed_at
    then file
    else insert target state file

-- `environment` and `state_path` only locate the child process and the file.
pub record TokscaleProfile : Type 0 where
  pub target : String
  pub custom_present : Bool
  pub state : PricingState
  pub refresh_models : List String
  pub ignored_models : List String

-- A price document: its `source` field, if there is one, and the rest of its text.
pub record Price : Type 0 where
  pub source : Option String
  pub document : String

abbrev pub Prices : Type 0
Prices = Dict Day (Dict String Price)

pub data CheckpointFailed : Type 0 where
  checkpoint_failed : CheckpointFailed

-- What a method leaves behind: its result, the profile and the file.
pub record After (A : Type 0) : Type 0 where
  pub result : Result CheckpointFailed A
  pub profile : TokscaleProfile
  pub file : Checkpoints

-- The call of `_write_pricing_state` that ends each method.
pub checkpoint : {A : Type 0} → Bool → TokscaleProfile → Checkpoints → A → After A
checkpoint writable p file a = record {
  result = if writable then ok a else err checkpoint_failed;
  profile = p;
  file = if writable then write_pricing_state file p.target p.state else file;
}

bool_beq : Bool → Bool → Bool
bool_beq true b = b
bool_beq false b = not b

-- `self.state.present != self.custom_present`
in_transition : TokscaleProfile → Bool
unfolding bool_beq
in_transition p = elim p.state.present [ none ↦ true | some b ↦ not (bool_beq b p.custom_present) ]

-- The models whose prices a run must observe again.
pub refresh_set : TokscaleProfile → List String → List String → List String
unfolding in_transition
refresh_set p known recovered =
    if in_transition p
    then union (if p.custom_present then known else union recovered p.state.models) p.state.pending
    else p.state.pending

-- `prepare_prices`
pub prepare_prices :
    Bool → TokscaleProfile → Checkpoints → List String → List String → After (List String)
unfolding refresh_set checkpoint
prepare_prices writable p file known recovered =
    let refresh = refresh_set p known recovered in
    checkpoint writable
      (record p {
        state = record p.state {
          models = union recovered p.state.models;
          pending = union refresh p.state.pending;
        };
        refresh_models = refresh;
      })
      file refresh

-- The test under which `filter_prices` deletes an observation.
pub is_unaffected : TokscaleProfile → List String → List String → String → Price → Bool
is_unaffected p observed needed model price =
    p.custom_present
    && contains p.refresh_models model
    && not (contains p.state.models model)
    && not (contains needed model)
    && contains observed model
    && not (price.source == some "Custom")

-- The inner loop: what stays of one day's observations, and what is ignored.
pub filter_day :
    TokscaleProfile
    → List String
    → List String
    → Dict String Price
    → Dict String Price × List String
unfolding is_unaffected
filter_day p observed needed [] = ([], [])
filter_day p observed needed ((model, price) ∷ rest) =
    let (kept, ignored) = filter_day p observed needed rest in
    if is_unaffected p observed needed model price
    then (kept, add model ignored)
    else ((model, price) ∷ kept, ignored)

pub filter_days :
    TokscaleProfile → Dict Day (List String) → List String → Prices → Prices × List String
unfolding filter_day
filter_days p existing needed [] = ([], [])
filter_days p existing needed ((day, prices) ∷ rest) =
    let (kept, ignored) = filter_day p (or_else (lookup day existing) []) needed prices in
    let (days, more) = filter_days p existing needed rest in
    ((day, kept) ∷ days, union ignored more)

-- `filter_prices` returns the prices that are left in the dictionary it changes.
pub filter_prices :
    Bool
    → TokscaleProfile
    → Checkpoints
    → Prices
    → Dict Day (List String)
    → List String
    → After Prices
unfolding filter_days checkpoint
filter_prices writable p file prices existing needed =
    let (kept, dropped) = filter_days p existing needed prices in
    let ignored = union dropped p.ignored_models in
    checkpoint writable
      (record p {
        state = record p.state { pending = difference p.state.pending ignored };
        ignored_models = ignored;
      })
      file kept

-- The state that `acknowledge_prices` writes.
pub acknowledged : PricingState → Bool → List String → List String → PricingState
acknowledged s custom_present published custom =
    let pending = difference s.pending published in
    let models = union custom s.models in
    if is_empty pending
    then record s {
      pending = pending;
      present = some custom_present;
      models = if custom_present then models else [];
    }
    else record s { pending = pending; models = models }

-- `acknowledge_prices`
pub acknowledge_prices :
    Bool → TokscaleProfile → Checkpoints → List String → List String → After Unit
unfolding acknowledged checkpoint
acknowledge_prices writable p file published custom =
    checkpoint writable
      (record p { state = acknowledged p.state p.custom_present published custom }) file tt
