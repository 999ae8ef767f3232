-- ===== src/Normalizer/Facts.antt =====
-- The fact tables of src/usagebassoon/normalizer.py, with src/usagebassoon/collection_policy.py.
use usagebassoon.Prelude.{
  ℕ, ◌+◌, String, Bool, Option, none, some, List, ◌||◌, not, ◌==◌, if◌then◌else◌, leb, or_else,
  Dict, concat_map, sort_by, sorted, map, string_ord, string_at_most, string_eq, nat_eq, triple_eq,
}
use usagebassoon.Usage.{
  Day, Time, Decimal, day_of, DailyModelStatsRow, DailyModelsPayload, SessionRow, PricingRow,
}
use usagebassoon.Ingest.Payloads.{ParsedPrices}

-- What the text of a session's label is formatted from; of the id it shows the last eight characters.
pub record SessionLabel : Type 0 where
  pub label : String
  pub day : Option Day
  pub session_id : String

-- `make_session_label`
make_session_label : SessionRow → SessionLabel
make_session_label row =
    let label = or_else row.workspace_label "session" in
    record {
      label = if label == "" then "session" else label;
      day = elim row.created_at [ none ↦ none | some created ↦ some (day_of created) ];
      session_id = row.session_id;
    }

pub record StoredSession : Type 0 where
  pub source_id : String
  pub client : String
  pub session_id : String
  pub workspace : Option String
  pub workspace_label : Option String
  pub created_at : Option Time
  pub last_active : Option Time
  pub duration_minutes : Option ℕ
  pub message_count : ℕ
  pub tokscale_cost_usd : Decimal
  pub models_used : List String
  pub session_label : SessionLabel
  pub first_seen_at : Time
  pub last_seen_at : Time
  pub collected_at : Time

-- `_session_rows`
unfoldable pub session_rows : List SessionRow → Time → String → Time → List StoredSession
unfolding make_session_label sorted
session_rows rows at source_id freshness_at =
    map
      (λ row. record {
        source_id = source_id;
        client = row.client;
        session_id = row.session_id;
        workspace = row.workspace;
        workspace_label = row.workspace_label;
        created_at = row.created_at;
        last_active = row.last_active;
        duration_minutes = row.duration_minutes;
        message_count = row.message_count;
        tokscale_cost_usd = row.tokscale_cost_usd;
        models_used = sorted row.models_used;
        session_label = make_session_label row;
        first_seen_at = at;
        last_seen_at = at;
        collected_at = freshness_at;
      })
      rows

pub record StoredUsage : Type 0 where
  pub source_id : String
  pub day : Day
  pub client : String
  pub session_id : String
  pub model : String
  pub provider : Option String
  pub input_tokens : ℕ
  pub output_tokens : ℕ
  pub cache_read : ℕ
  pub cache_write : ℕ
  pub reasoning : ℕ
  pub total_tokens : ℕ
  pub message_count : ℕ
  pub tokscale_cost_usd : Decimal
  pub perf_duration_ms : Option ℕ
  pub perf_timed_tokens : Option ℕ
  pub perf_sample_count : Option ℕ
  pub perf_token_coverage : Option Decimal
  pub tokscale_ms_per_1k_tokens : Option Decimal
  pub collected_at : Time

unfoldable pub usage_row : String → Time → DailyModelStatsRow → StoredUsage
usage_row source_id at daily_row =
    let row = daily_row.stats in
    record {
      source_id = source_id;
      day = daily_row.day;
      client = row.client;
      session_id = row.session_id;
      model = row.model;
      provider = row.provider;
      input_tokens = row.input_tokens;
      output_tokens = row.output_tokens;
      cache_read = row.cache_read;
      cache_write = row.cache_write;
      reasoning = row.reasoning;
      total_tokens =
          row.input_tokens + row.output_tokens + row.cache_read + row.cache_write + row.reasoning;
      message_count = row.message_count;
      tokscale_cost_usd = row.tokscale_cost_usd;
      perf_duration_ms = row.perf_duration_ms;
      perf_timed_tokens = row.perf_timed_tokens;
      perf_sample_count = row.perf_sample_count;
      perf_token_coverage = row.perf_token_coverage;
      tokscale_ms_per_1k_tokens = row.tokscale_ms_per_1k_tokens;
      collected_at = at;
    }

abbrev pub by_first {ℓ} : {A : Type ℓ} → Day × A → Day × A → Bool
by_first (d, a) (e, b) = leb d e

-- `_daily_stats_rows`
unfoldable pub daily_stats_rows : Dict Day DailyModelsPayload → Time → String → List StoredUsage
unfolding usage_row sort_by
daily_stats_rows daily at source_id =
    concat_map (λ entry. map (usage_row source_id at) entry.1.entries) (sort_by by_first daily)

pub record StoredPrice : Type 0 where
  pub source_id : String
  pub day : Day
  pub model : String
  pub source : String
  pub matched_key : Option String
  pub match_kind : String
  pub price_input_per_token : Option Decimal
  pub price_output_per_token : Option Decimal
  pub price_cache_read_per_token : Option Decimal
  pub price_cache_write_per_token : Option Decimal
  pub collected_at : Time

-- `apply_collection_policy` for the one policy, that of prices: the model `codex-auto-review` is
-- free, unless the user has set its price.
apply_collection_policy : String → StoredPrice → StoredPrice
apply_collection_policy domain price =
    if not (domain == "price_versions") || not (price.model == "codex-auto-review")
    then price
    else if price.source == "Custom"
    then price
    else record price {
      source = "UsageBassoon";
      matched_key = none;
      match_kind = "policy_free";
      price_input_per_token = some 0;
      price_output_per_token = some 0;
      price_cache_read_per_token = some 0;
      price_cache_write_per_token = some 0;
    }

price_row : String → Time → Day → String × PricingRow → StoredPrice
unfolding apply_collection_policy
price_row source_id freshness_at day (model, pricing) =
    apply_collection_policy "price_versions" (record {
      source_id = source_id;
      day = day;
      model = pricing.model_id;
      source = pricing.source;
      matched_key = pricing.matched_key;
      match_kind = pricing.resolution.kind;
      price_input_per_token = pricing.pricing.input_cost_per_token;
      price_output_per_token = pricing.pricing.output_cost_per_token;
      price_cache_read_per_token = pricing.pricing.cache_read_input_token_cost;
      price_cache_write_per_token = pricing.pricing.cache_write_input_token_cost;
      collected_at = freshness_at;
    })

abbrev by_model : String × PricingRow → String × PricingRow → Bool
by_model a b = string_at_most a.0 b.0

-- `_price_version_rows`
unfoldable pub price_version_rows : ParsedPrices → String → Time → List StoredPrice
unfolding price_row sort_by
price_version_rows pricing source_id freshness_at =
    concat_map (λ entry. map (price_row source_id freshness_at entry.0) (sort_by by_model entry.1))
      (sort_by by_first pricing)
