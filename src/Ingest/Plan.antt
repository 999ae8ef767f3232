-- ===== src/Ingest/Plan.antt =====
-- `plan_graph`, `plan_models` and `build_ingest_evidence` of src/usagebassoon/ingest.py, with
-- `parse_graph` and `parse_daily` of src/usagebassoon/parsers/. What pydantic's `model_validate`
-- returns for a payload is a parameter.
use usagebassoon.Prelude.{
  String, Bool, true, false, Option, none, some, List, [], ◌∷◌, ◌++◌, if◌then◌else◌, is_empty, Dict,
  insert, update, values, contains, to_set, sorted, map, Result, ok, err, ◌>>=◌, string_eq, nat_eq,
  nat_ord, pair_eq,
}
use usagebassoon.Usage.{
  Day, ModelStatsRow, ModelsPayload, DailyModelsPayload, SessionRow, PricingRow, GraphPayload,
}
use usagebassoon.Contract.Json.{Json}
use usagebassoon.Contract.Diff.{
  ContractDrift, ContractValidation, ContractError, Contracts, validate_payloads,
}

-- pydantic's validation of each payload model; `none` is its `ValidationError`, or the parser's
-- own `ValueError` for a payload of the wrong top-level shape.
pub record Validators : Type 0 where
  pub graph : Json → Option GraphPayload
  pub models : Json → Option (ModelsPayload × List ModelStatsRow)
  pub session : Json → Option SessionRow
  pub pricing : Json → Option PricingRow

pub data IngestError : Type 0 where
  contract_violation : ContractValidation → IngestError
  invalid_payload : IngestError
  invalid_kinds : ContractError → IngestError

abbrev lift_kinds {ℓ} : {A : Type ℓ} → Result ContractError A → Result IngestError A
lift_kinds (ok a) = ok a
lift_kinds (err e) = err (invalid_kinds e)

-- `parse_graph`: a repeated contribution date is refused.
has_repeats : List Day → Bool
has_repeats [] = false
has_repeats (d ∷ days) = elim (contains days d) [ true ↦ true | false ↦ has_repeats days ]

parse_graph : Validators → Json → Result IngestError GraphPayload
unfolding has_repeats
parse_graph v payload = elim (v.graph payload) [
  | none ↦ err invalid_payload
  | some parsed ↦
      if has_repeats (map (λ c. c.date) parsed.contributions)
      then err invalid_payload
      else ok parsed
]

-- `parse_daily`
parse_daily : Validators → Day → Json → Result IngestError DailyModelsPayload
parse_daily v day payload = elim (v.models payload) [
  | none ↦ err invalid_payload
  | some (totals, rows) ↦ ok (record {
    day = day;
    entries = map (λ row. record { day = day; stats = row }) rows;
    totals = totals;
  })
]

pub record GraphPlan : Type 0 where
  pub graph : GraphPayload
  pub candidate_days : List Day
  pub contract_drift : List ContractDrift

pub record ModelsPlan : Type 0 where
  pub daily_models : Dict Day DailyModelsPayload
  pub models_by_day : Dict Day (List String)
  pub contract_drift : List ContractDrift
  pub failures : Dict Day String

plan_graph : Validators → Contracts → Json → Result IngestError GraphPlan
unfolding parse_graph
plan_graph v contracts payload = do
  validation ←
      lift_kinds (validate_payloads (("graph", payload ∷ []) ∷ []) contracts ("graph" ∷ []))
  if validation.fatal then err (contract_violation validation) else do
    graph ← parse_graph v payload
    ok (record {
      graph = graph;
      candidate_days = sorted (to_set (map (λ c. c.date) graph.contributions));
      contract_drift = validation.events;
    })

-- `frozenset(row.stats.model for row in payload.entries)`
abbrev pub models_of : DailyModelsPayload → List String
models_of payload = to_set (map (λ row. row.stats.model) payload.entries)

pub models_by_day : Dict Day DailyModelsPayload → Dict Day (List String)
models_by_day [] = []
models_by_day ((day, payload) ∷ daily) = (day, models_of payload) ∷ models_by_day daily

parse_days : Validators → Dict Day Json → Result IngestError (Dict Day DailyModelsPayload)
unfolding parse_daily
parse_days v [] = ok []
parse_days v ((day, payload) ∷ payloads) = do
  parsed ← parse_daily v day payload
  rest ← parse_days v payloads
  ok ((day, parsed) ∷ rest)

-- `plan_models` where failures are not tracked
plan_all_models : Validators → Contracts → Dict Day Json → Result IngestError ModelsPlan
unfolding parse_days models_by_day
plan_all_models v contracts payloads = do
  validation ← lift_kinds (
      validate_payloads (("models", values payloads) ∷ []) contracts
        (if is_empty payloads then [] else "models" ∷ []))
  if validation.fatal then err (contract_violation validation) else do
    daily ← parse_days v payloads
    ok (record {
      daily_models = daily;
      models_by_day = models_by_day daily;
      contract_drift = validation.events;
      failures = [];
    })

-- What the loop of `plan_models` accumulates where failures are tracked.
pub record Tracked : Type 0 where
  pub parsed : Dict Day DailyModelsPayload
  pub events : List ContractDrift
  pub failures : Dict Day String

-- One round: a failure of one day is recorded and the loop goes on. Every error of the kinds is a
-- `ValueError`, as a refused payload is.
track_day : Validators → Contracts → Tracked → Day → Json → Tracked
unfolding plan_all_models update
track_day v contracts t day payload = elim (plan_all_models v contracts ((day, payload) ∷ [])) [
  | ok plan ↦ record t {
    parsed = update plan.daily_models t.parsed;
    events = t.events ++ plan.contract_drift;
  }
  | err error ↦ elim error [
    | contract_violation validation ↦ record t {
      failures = insert day "contract" t.failures;
      events = t.events ++ validation.events;
    }
    | _ ↦ record t { failures = insert day "parse" t.failures }
  ]
]

track_days : Validators → Contracts → Tracked → Dict Day Json → Tracked
unfolding track_day
track_days v contracts t [] = t
track_days v contracts t ((day, payload) ∷ payloads) =
    track_days v contracts (track_day v contracts t day payload) payloads

-- `plan_models` where failures are tracked
plan_models : Validators → Contracts → Dict Day Json → Dict Day String → ModelsPlan
unfolding track_days models_by_day
plan_models v contracts payloads failures =
    let t =
      track_days v contracts (record { parsed = []; events = []; failures = failures }) payloads in
    record {
      daily_models = t.parsed;
      models_by_day = models_by_day t.parsed;
      contract_drift = t.events;
      failures = t.failures;
    }
