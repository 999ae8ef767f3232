-- ===== src/Usage.antt =====
-- The parsed payloads: src/usagebassoon/parsers/daily.py, report.py, pricing.py and graph.py. The
-- field checks of pydantic are not modelled: these are the records that it returns.
-- A day is a day ordinal from `date.min`, a timestamp a number of microseconds, and a float that
-- pydantic bounds below by zero a whole number of 10^-12 units.
use usagebassoon.Prelude.{ℕ, ◌/◌, String, Bool, Option, List}

abbrev pub Day : Type 0
Day = ℕ

abbrev pub Time : Type 0
Time = ℕ

abbrev pub Decimal : Type 0
Decimal = ℕ

abbrev microseconds_per_day : ℕ
microseconds_per_day = 86400000000

pub record ModelStatsRow : Type 0 where
  pub client : String
  pub session_id : String
  pub model : String
  pub provider : Option String
  pub merged_clients : List String
  pub input_tokens : ℕ
  pub output_tokens : ℕ
  pub cache_read : ℕ
  pub cache_write : ℕ
  pub reasoning : ℕ
  pub message_count : ℕ
  pub tokscale_cost_usd : Decimal
  pub tokscale_ms_per_1k_tokens : Option Decimal
  pub perf_duration_ms : Option ℕ
  pub perf_timed_tokens : Option ℕ
  pub perf_sample_count : Option ℕ
  pub perf_token_coverage : Option Decimal

-- The totals that a response declares. `ModelsPayload` holds the entries too; here they stand in
-- `DailyModelsPayload` alone, which is built from them.
pub record ModelsPayload : Type 0 where
  pub group_by : String
  pub total_input : ℕ
  pub total_output : ℕ
  pub total_cache_read : ℕ
  pub total_cache_write : ℕ
  pub total_messages : ℕ
  pub total_cost : Decimal
  pub processing_time_ms : Option ℕ

pub record DailyModelStatsRow : Type 0 where
  pub day : Day
  pub stats : ModelStatsRow

pub record DailyModelsPayload : Type 0 where
  pub day : Day
  pub entries : List DailyModelStatsRow
  pub totals : ModelsPayload

pub record SessionRow : Type 0 where
  pub client : String
  pub session_id : String
  pub workspace : Option String
  pub workspace_label : Option String
  pub created_at : Option Time
  pub last_active : Option Time
  pub duration_minutes : Option ℕ
  pub total_input_tokens : ℕ
  pub total_output_tokens : ℕ
  pub total_cache_read : Option ℕ
  pub message_count : ℕ
  pub tokscale_cost_usd : Decimal
  pub models_used : List String

pub record PricingRates : Type 0 where
  pub input_cost_per_token : Option Decimal
  pub output_cost_per_token : Option Decimal
  pub cache_read_input_token_cost : Option Decimal
  pub cache_write_input_token_cost : Option Decimal

pub record PricingResolution : Type 0 where
  pub kind : String
  pub candidate_count : ℕ
  pub price_consensus : Bool
  pub exact_model_identity : Bool
  pub alias_applied : Bool
  pub normalized : Bool
  pub stripped : Bool
  pub submission_safe : Bool

pub record PricingRow : Type 0 where
  pub model_id : String
  pub matched_key : Option String
  pub source : String
  pub resolution : PricingResolution
  pub pricing : PricingRates

pub record TokenBreakdown : Type 0 where
  pub input : ℕ
  pub output : ℕ
  pub cache_read : ℕ
  pub cache_write : ℕ
  pub reasoning : ℕ

pub record ContributionClient : Type 0 where
  pub client : String
  pub model_id : String
  pub provider_id : Option String
  pub tokens : TokenBreakdown
  pub cost : Decimal
  pub messages : ℕ

pub record Contribution : Type 0 where
  pub date : Day
  pub intensity : ℕ
  pub active_time_ms : ℕ
  pub clients : List ContributionClient

pub record GraphPayload : Type 0 where
  pub version : String
  pub contributions : List Contribution

-- `datetime.date()`
abbrev pub day_of : Time → Day
day_of t = t / microseconds_per_day
