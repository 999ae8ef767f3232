-- ===== src/Config/Sections/Settings.antt =====
-- What the sections of src/usagebassoon/config.py guarantee when they are accepted.
use usagebassoon.Prelude.{
  String, true, Option, none, some, List, ◌&&◌, all, string_eq, contains, ok, >>=-eq-ok, ◌≡◌, arith,
}
use usagebassoon.Queries.{is_simple_identifier}
use usagebassoon.Config.{
  Toml, array, Table, Host, get, table_of, parse_interval, duration_or, optional_string,
  positive_int,
}
use usagebassoon.Config.Settings.{duration_or-parse_interval}
use usagebassoon.Config.Sections.{
  CollectionConfig, TokscaleConfig, units_sm, units_mh, distinct, environment_names,
  tokscale_config, retries_of, retry_delay_of, schedule_config, collection_config, StorageConfig,
  duckdb, motherduck, bigquery, supported_backends, duckdb_storage, motherduck_storage,
  bigquery_storage, storage_config, motherduck_config, bigquery_config,
}

environment_names-distinct :
    (toml : Option Toml) (names : List String)
    → environment_names toml ≡ ok names
    → (distinct names && all is_simple_identifier names) ≡ true
unfolding environment_names distinct
environment_names-distinct none names h = ground (arith, h)
environment_names-distinct (some (array listed)) names h = ground (arith, h)
environment_names-distinct (some toml) names h = ground (arith, h)

pub collection_config-interval :
    (host : Host) (keyed : Table) (collection : CollectionConfig)
    → collection_config host keyed ≡ ok collection
    → parse_interval host units_mh collection.interval ≡ some collection.interval_length
unfolding collection_config schedule_config
collection_config-interval host keyed collection h =
    let (settings, _, h1) = >>=-eq-ok (table_of (some (Toml.table keyed)) "collection" _) _ h in
    let (retries, _, h2) = >>=-eq-ok (retries_of (get "max_retries" settings)) _ h1 in
    let (delay, _, h3) = >>=-eq-ok (retry_delay_of (get "retry_initial_seconds" settings)) _ h2 in
    let (interval, timed, h4) = >>=-eq-ok (schedule_config host (get "schedule" settings)) _ h3 in
    let (schedule, _, parsed) =
      >>=-eq-ok (table_of (get "schedule" settings) "collection.schedule" _) _ timed in
    let known =
      duration_or-parse_interval host (get "interval" schedule) "15m" units_mh
        "collection.schedule.interval" interval parsed in
    ground (arith, known, h4)

pub tokscale_config-env :
    (host : Host) (toml : Option Toml) (tokscale : TokscaleConfig)
    → tokscale_config host toml ≡ ok tokscale
    → (distinct tokscale.env && all is_simple_identifier tokscale.env) ≡ true
unfolding tokscale_config
tokscale_config-env host toml tokscale h =
    let (settings, _, h1) = >>=-eq-ok (table_of toml "tokscale" _) _ h in
    let (timeout, _, h2) =
      >>=-eq-ok (duration_or host (get "timeout" settings) "120s" units_sm "tokscale.timeout") _
        h1 in
    let (bin, _, h3) = >>=-eq-ok (optional_string (get "bin" settings) "tokscale.bin") _ h2 in
    let (env, named, h4) = >>=-eq-ok (environment_names (get "env" settings)) _ h3 in
    let (stdout, _, h5) =
      >>=-eq-ok
        (positive_int (get "max_stdout_bytes" settings) 67108864 "tokscale.max_stdout_bytes") _
        h4 in
    let (stderr, _, h6) =
      >>=-eq-ok (positive_int (get "max_stderr_bytes" settings) 8388608 "tokscale.max_stderr_bytes")
        _ h5 in
    let known = environment_names-distinct (get "env" settings) env named in
    ground (arith, known, h6)

-- The name under which the settings of a backend are selected.
abbrev pub provider_of : StorageConfig → String
provider_of (duckdb database) = "duckdb"
provider_of (motherduck settings) = "motherduck"
provider_of (bigquery settings) = "bigquery"

duckdb_storage-provider_of :
    (host : Host) (payload : Table) (storage : StorageConfig)
    → duckdb_storage host payload ≡ ok storage
    → provider_of storage ≡ "duckdb"
unfolding duckdb_storage
duckdb_storage-provider_of host payload storage h =
    let (settings, _, h1) = >>=-eq-ok (table_of (get "duckdb" payload) "backend.duckdb" _) _ h in
    let (database, _, h2) =
      >>=-eq-ok (optional_string (get "database" settings) "backend.duckdb.database") _ h1 in
    ground (arith, h2)

motherduck_storage-provider_of :
    (host : Host) (toml : Option Toml) (storage : StorageConfig)
    → motherduck_storage host toml ≡ ok storage
    → provider_of storage ≡ "motherduck"
unfolding motherduck_storage
motherduck_storage-provider_of host none storage h = cc
motherduck_storage-provider_of host (some toml) storage h =
    let (settings, _, h1) = >>=-eq-ok (motherduck_config host toml) _ h in ground (arith, h1)

bigquery_storage-provider_of :
    (host : Host) (toml : Option Toml) (storage : StorageConfig)
    → bigquery_storage host toml ≡ ok storage
    → provider_of storage ≡ "bigquery"
unfolding bigquery_storage
bigquery_storage-provider_of host none storage h = cc
bigquery_storage-provider_of host (some toml) storage h =
    let (settings, _, h1) = >>=-eq-ok (bigquery_config host toml) _ h in ground (arith, h1)

pub storage_config-provider_of :
    (host : Host) (backend : String) (payload : Table) (storage : StorageConfig)
    → contains supported_backends backend ≡ true
    → storage_config host backend payload ≡ ok storage
    → provider_of storage ≡ backend
unfolding storage_config contains
storage_config-provider_of host backend payload storage supported h = ground (
  arith,
  h,
  supported,
  string_eq.beq_iff backend "duckdb",
  string_eq.beq_iff backend "motherduck",
  string_eq.beq_iff "duckdb" backend,
  string_eq.beq_iff "motherduck" backend,
  string_eq.beq_iff "bigquery" backend,
  duckdb_storage-provider_of host payload storage,
  motherduck_storage-provider_of host (get "motherduck" payload) storage,
  bigquery_storage-provider_of host (get "bigquery" payload) storage,
)
