-- ===== src/Config/Sections.antt =====
-- The sections of the configuration: their records and `_tokscale_config` to `_gcs_config` of
-- src/usagebassoon/config.py.
pub mod Settings
use Prim.Native.Char.{code}
use usagebassoon.Prelude.{
  ℕ, suc, String, Bool, true, false, Option, none, some, List, [], ◌∷◌, ◌&&◌, ◌||◌, not, all, ◌==◌,
  string_eq, nat_eq, leb, ltb, is_some, or_else, contains, ◌*◌, zero, if◌then◌else◌, Result, ok,
  err, ◌>>=◌,
}
use usagebassoon.Queries.{is_simple_identifier}
use usagebassoon.Config.{
  Toml, text, boolean, whole, negative, real, array, Values, no_values, value, Table, ConfigError,
  unknown_keys, invalid, missing, Host, get, table_of, optional_string, required_string,
  boolean_or_false, positive_int, is_blank, duration_or,
}

-- The letters of the permitted units.
abbrev pub units_sm : List ℕ
units_sm = b's' ∷ b'm' ∷ []

abbrev pub units_mh : List ℕ
units_mh = b'm' ∷ b'h' ∷ []

pub record BigqueryConfig : Type 0 where
  pub project : String
  pub dataset : String
  pub location : String
  pub credentials_file : Option String
  pub maximum_bytes_billed : ℕ
  pub timeout : ℕ

pub record MotherduckConfig : Type 0 where
  pub database : String
  pub timeout : ℕ

-- The interval with its microseconds.
pub record CollectionConfig : Type 0 where
  pub interval : String
  pub interval_length : ℕ
  pub max_retries : ℕ
  pub retry_initial : ℕ

pub record LoggingConfig : Type 0 where
  pub disable : Bool
  pub directory : String
  pub max_files : ℕ
  pub max_bytes : ℕ

pub record TokscaleConfig : Type 0 where
  pub bin : Option String
  pub env : List String
  pub timeout : ℕ
  pub max_stdout_bytes : ℕ
  pub max_stderr_bytes : ℕ

-- The names of a list of texts.
names_of : Values → Option (List String)
names_of no_values = some []
names_of (value (text s) rest) = elim (names_of rest) [
  | none ↦ none
  | some names ↦ some (s ∷ names)
]
names_of (value toml rest) = none

-- `len(set(names)) == len(names)`
unfoldable pub distinct : List String → Bool
distinct [] = true
distinct (x ∷ xs) = not (contains xs x) && distinct xs

-- `_environment_names`. A name is an identifier in ASCII.
environment_names : Option Toml → Result ConfigError (List String)
unfolding names_of distinct
environment_names none = ok []
environment_names (some (array values)) = elim (names_of values) [
  | none ↦ err (invalid "tokscale.env")
  | some names ↦
      if not (distinct names)
      then err (invalid "tokscale.env")
      else if not (all is_simple_identifier names)
      then err (invalid "tokscale.env")
      else ok names
]
environment_names (some toml) = err (invalid "tokscale.env")

-- `_tokscale_config`
unfoldable pub tokscale_config : Host → Option Toml → Result ConfigError TokscaleConfig
unfolding environment_names table_of duration_or optional_string positive_int get
tokscale_config host toml = do
  settings ←
      table_of toml "tokscale"
        ("bin" ∷ "env" ∷ "timeout" ∷ "max_stdout_bytes" ∷ "max_stderr_bytes" ∷ [])
  timeout ← duration_or host (get "timeout" settings) "120s" units_sm "tokscale.timeout"
  bin ← optional_string (get "bin" settings) "tokscale.bin"
  env ← environment_names (get "env" settings)
  max_stdout ← positive_int (get "max_stdout_bytes" settings) 67108864 "tokscale.max_stdout_bytes"
  max_stderr ← positive_int (get "max_stderr_bytes" settings) 8388608 "tokscale.max_stderr_bytes"
  ok (record {
    bin = bin;
    env = env;
    timeout = timeout.1;
    max_stdout_bytes = max_stdout;
    max_stderr_bytes = max_stderr;
  })

-- `collection.max_retries`
retries_of : Option Toml → Result ConfigError ℕ
retries_of none = ok 3
retries_of (some (whole n)) = ok n
retries_of (some toml) = err (invalid "collection.max_retries")

-- `collection.retry_initial_seconds`, in millionths of a second
retry_delay_of : Option Toml → Result ConfigError ℕ
retry_delay_of none = ok 1000000
retry_delay_of (some (whole n)) =
    if leb 1 n then ok (n * 1000000) else err (invalid "collection.retry_initial_seconds")
retry_delay_of (some (real n)) =
    if leb 1 n then ok n else err (invalid "collection.retry_initial_seconds")
retry_delay_of (some toml) = err (invalid "collection.retry_initial_seconds")

-- `_schedule_config`
schedule_config : Host → Option Toml → Result ConfigError (String × ℕ)
unfolding table_of duration_or get
schedule_config host toml = do
  settings ← table_of toml "collection.schedule" ("interval" ∷ [])
  duration_or host (get "interval" settings) "15m" units_mh "collection.schedule.interval"

-- `_collection_config`
unfoldable pub collection_config : Host → Table → Result ConfigError CollectionConfig
unfolding table_of retries_of retry_delay_of schedule_config get
collection_config host keyed = do
  settings ←
      table_of (some (Toml.table keyed)) "collection"
        ("max_retries" ∷ "retry_initial_seconds" ∷ "schedule" ∷ [])
  retries ← retries_of (get "max_retries" settings)
  delay ← retry_delay_of (get "retry_initial_seconds" settings)
  interval ← schedule_config host (get "schedule" settings)
  ok (record {
    interval = interval.0;
    interval_length = interval.1;
    max_retries = retries;
    retry_initial = delay;
  })

-- `_logging_config`
unfoldable pub logging_config : Host → Option Toml → Result ConfigError LoggingConfig
unfolding table_of optional_string positive_int boolean_or_false get
logging_config host toml = do
  settings ← table_of toml "logging" ("directory" ∷ "max_files" ∷ "max_bytes" ∷ "disable" ∷ [])
  directory ← optional_string (get "directory" settings) "logging.directory"
  max_files ← positive_int (get "max_files" settings) 5 "logging.max_files"
  max_bytes ← positive_int (get "max_bytes" settings) 5242880 "logging.max_bytes"
  disable ← boolean_or_false (get "disable" settings) "logging.disable"
  ok (record {
    disable = disable;
    directory = elim directory [ none ↦ host.log_directory | some d ↦ host.expand d ];
    max_files = max_files;
    max_bytes = max_bytes;
  })

is_letter : ℕ → Bool
is_letter c = (leb b'A' c && leb c b'Z') || (leb b'a' c && leb c b'z')

-- `[A-Za-z0-9-]{0,n}`
is_tail : ℕ → String → Bool
unfolding is_letter
is_tail n String.[] = true
is_tail zero (String.◌∷◌ c s) = false
is_tail (suc n) (String.◌∷◌ c s) =
    (is_letter (code c) || (leb b'0' (code c) && leb (code c) b'9') || (code c == b'-'))
    && is_tail n s

-- `_BIGQUERY_LOCATION_PATTERN`
is_location : String → Bool
unfolding is_letter is_tail
is_location String.[] = false
is_location (String.◌∷◌ c s) = is_letter (code c) && is_tail 62 s

-- `Path(file).expanduser() if file else None`
expanded : Host → Option String → Option String
expanded host none = none
expanded host (some file) = some (host.expand file)

-- `_bigquery_config`, for a table that is there.
bigquery_config : Host → Toml → Result ConfigError BigqueryConfig
unfolding table_of required_string optional_string positive_int duration_or is_location expanded get
bigquery_config host toml = do
  settings ← table_of (some toml) "backend.bigquery" (
      "project" ∷ "dataset" ∷ "location" ∷ "credentials_file" ∷ "maximum_bytes_billed" ∷ "timeout"
      ∷ [])
  project ← required_string (get "project" settings) "backend.bigquery.project"
  dataset ← required_string (get "dataset" settings) "backend.bigquery.dataset"
  location ←
      required_string (some (or_else (get "location" settings) (text "US")))
        "backend.bigquery.location"
  credentials ←
      optional_string (get "credentials_file" settings) "backend.bigquery.credentials_file"
  checked ← if is_location location then ok location else err (invalid "backend.bigquery.location")
  billed ←
      positive_int (get "maximum_bytes_billed" settings) 1073741824
        "backend.bigquery.maximum_bytes_billed"
  timeout ← duration_or host (get "timeout" settings) "180s" units_sm "backend.bigquery.timeout"
  ok (record {
    project = project;
    dataset = dataset;
    location = checked;
    credentials_file = expanded host credentials;
    maximum_bytes_billed = billed;
    timeout = timeout.1;
  })

-- `_motherduck_config`, for a table that is there.
motherduck_config : Host → Toml → Result ConfigError MotherduckConfig
unfolding table_of required_string duration_or get
motherduck_config host toml = do
  settings ← table_of (some toml) "backend.motherduck" ("database" ∷ "timeout" ∷ [])
  database ← required_string (get "database" settings) "backend.motherduck.database"
  timeout ← duration_or host (get "timeout" settings) "120s" units_sm "backend.motherduck.timeout"
  ok (record { database = database; timeout = timeout.1 })

abbrev pub supported_backends : List String
supported_backends = "duckdb" ∷ "motherduck" ∷ "bigquery" ∷ []

-- The settings of the selected backend.
pub data StorageConfig : Type 0 where
  duckdb : String → StorageConfig
  motherduck : MotherduckConfig → StorageConfig
  bigquery : BigqueryConfig → StorageConfig

duckdb_storage : Host → Table → Result ConfigError StorageConfig
duckdb_storage host payload = do
  settings ← table_of (get "duckdb" payload) "backend.duckdb" ("database" ∷ [])
  database ← optional_string (get "database" settings) "backend.duckdb.database"
  ok (duckdb (host.expand (or_else database host.local_database)))

motherduck_storage : Host → Option Toml → Result ConfigError StorageConfig
unfolding motherduck_config
motherduck_storage host none = err (missing "backend.motherduck")
motherduck_storage host (some toml) =
    motherduck_config host toml >>= λ settings. ok (motherduck settings)

bigquery_storage : Host → Option Toml → Result ConfigError StorageConfig
unfolding bigquery_config
bigquery_storage host none = err (missing "backend.bigquery")
bigquery_storage host (some toml) = bigquery_config host toml >>= λ settings. ok (bigquery settings)

-- `_storage_config`, for a name that `SUPPORTED_BACKENDS` has.
unfoldable pub storage_config : Host → String → Table → Result ConfigError StorageConfig
unfolding duckdb_storage motherduck_storage bigquery_storage get
storage_config host backend payload =
    if backend == "duckdb"
    then duckdb_storage host payload
    else if backend == "motherduck"
    then motherduck_storage host (get "motherduck" payload)
    else bigquery_storage host (get "bigquery" payload)
