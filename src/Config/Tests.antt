-- ===== src/Config/Tests.antt =====
-- A configuration file as src/usagebassoon/config.py reads it.
use usagebassoon.Prelude.{
  ℕ, String, true, false, Option, none, some, [], ◌∷◌, ok, err, ◌≡◌, refl, ◌==◌, string_eq,
  if◌then◌else◌, contains,
}
use usagebassoon.Config.{
  Toml, text, array, Values, no_values, value, Table, no_keys, key, ConfigError, unknown_keys,
  invalid, missing, Host, parse_interval,
}
use usagebassoon.Config.Sections.{duckdb, units_sm, units_mh}
use usagebassoon.Config.Parsing.{UsagebassoonConfig, parse_config}
use usagebassoon.Config.Parsing.Accepted.{IsAccepted, parse_config-IsAccepted}

abbrev measured : String → ℕ → Option ℕ
measured s n =
    if contains ("15m" ∷ "20m" ∷ []) s
    then some 900000000
    else if s == "2m"
    then some 120000000
    else if s == "0s"
    then some 0
    else some 43200000000

abbrev linux : Host
linux = record {
  measure = measured;
  expand = λ path. path;
  log_directory = "/log";
  snapshot_directory = "/snapshots";
  local_database = "/usage.duckdb";
  spinners = "pong" ∷ [];
  canonical = λ s. some "0b5f0000-0000-4000-8000-00000000000a";
  accepts_gcs = λ uri. true;
  is_emulated = false;
}

abbrev source : Table → Table
source rest = key "source_id" (text "0B5F0000-0000-4000-8000-00000000000A") rest

abbrev runner : Table
runner =
    key "timeout" (text "2m")
      (key "env" (array (value (text "HOME") (value (text "API_KEY") no_values))) no_keys)

abbrev payload : Table
payload = source (key "tokscale" (Toml.table runner) no_keys)

abbrev accepted : UsagebassoonConfig
accepted = record {
  source_id = "0b5f0000-0000-4000-8000-00000000000a";
  spinner = "pong";
  storage = duckdb "/usage.duckdb";
  tokscale = record {
    bin = none;
    env = "HOME" ∷ "API_KEY" ∷ [];
    timeout = 120000000;
    max_stdout_bytes = 67108864;
    max_stderr_bytes = 8388608;
  };
  collection = record {
    interval = "15m";
    interval_length = 900000000;
    max_retries = 3;
    retry_initial = 1000000;
  };
  logging = record { disable = false; directory = "/log"; max_files = 5; max_bytes = 5242880 };
  snapshots = record {
    timeout = 43200000000;
    max_snapshots = 3;
    local = record { path = "/snapshots"; enable = false; disable_weekly = false };
    gcs = none;
    interval = "12h";
  };
}

parse_config-of-payload : parse_config linux payload none none ≡ ok accepted
unfolding parse_config usagebassoon.Config.reject_unknown_keys contains
    usagebassoon.Config.required_string usagebassoon.Config.get usagebassoon.Config.table_of
    usagebassoon.Config.Sections.storage_config usagebassoon.Config.Parsing.parse_sections
    usagebassoon.Config.Sections.tokscale_config usagebassoon.Queries.is_simple_identifier
    usagebassoon.Config.Sections.collection_config usagebassoon.Config.Sections.logging_config
    usagebassoon.Config.Archives.snapshots_config
parse_config-of-payload = refl

parse_config-IsAccepted_example : IsAccepted linux payload accepted
parse_config-IsAccepted_example =
    parse_config-IsAccepted linux payload none none accepted parse_config-of-payload

-- A schedule as short as a command of tokscale is refused.
short-schedule :
    parse_config linux payload (some "2m") none ≡ err (invalid "collection.schedule.interval")
unfolding parse_config usagebassoon.Config.reject_unknown_keys contains
    usagebassoon.Config.required_string usagebassoon.Config.get usagebassoon.Config.table_of
    usagebassoon.Config.Sections.storage_config usagebassoon.Config.Parsing.parse_sections
    usagebassoon.Config.Sections.tokscale_config usagebassoon.Queries.is_simple_identifier
    usagebassoon.Config.Sections.collection_config
short-schedule = refl

no-source : parse_config linux no_keys none none ≡ err (missing "source_id")
unfolding parse_config usagebassoon.Config.reject_unknown_keys usagebassoon.Config.required_string
    usagebassoon.Config.get contains
no-source = refl

misspelt :
    parse_config linux (source (key "backends" (text "duckdb") no_keys)) none none
    ≡ err (unknown_keys "root" ("backends" ∷ []))
unfolding parse_config usagebassoon.Config.reject_unknown_keys contains
misspelt = refl

upper-case : parse_interval linux units_mh "20M" ≡ some 43200000000
unfolding parse_interval contains
upper-case = refl

wrong-unit : parse_interval linux units_sm "15h" ≡ none
unfolding parse_interval contains
wrong-unit = refl

no-fraction : parse_interval linux units_sm "1.m" ≡ none
unfolding parse_interval
no-fraction = refl

fraction : parse_interval linux units_mh "15.5m" ≡ some 43200000000
unfolding parse_interval contains
fraction = refl

no-time : parse_interval linux units_sm "0s" ≡ none
unfolding parse_interval contains
no-time = refl
