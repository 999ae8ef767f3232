-- ===== src/Config/Parsing.antt =====
-- The whole configuration: `_parse_config` of src/usagebassoon/config.py.
pub mod Known
pub mod Accepted
use Prim.Native.Char.{code}
use usagebassoon.Prelude.{
  ℕ, zero, suc, ◌+◌, String, Bool, true, false, Option, none, some, List, [], ◌∷◌, ◌&&◌, ◌||◌, not,
  ◌==◌, string_eq, nat_eq, leb, or_else, contains, if◌then◌else◌, Result, ok, err, ◌>>=◌,
}
use usagebassoon.Config.{
  Toml, text, Table, ConfigError, invalid, missing, Host, get, with_key, table_of,
  reject_unknown_keys, required_string,
}
use usagebassoon.Config.Sections.{
  CollectionConfig, LoggingConfig, TokscaleConfig, supported_backends, StorageConfig,
  tokscale_config, collection_config, logging_config, storage_config,
}
use usagebassoon.Config.Archives.{SnapshotsConfig, snapshots_config}

pub record UsagebassoonConfig : Type 0 where
  pub source_id : String
  pub spinner : String
  pub storage : StorageConfig
  pub tokscale : TokscaleConfig
  pub collection : CollectionConfig
  pub logging : LoggingConfig
  pub snapshots : SnapshotsConfig

abbrev pub root_keys : List String
root_keys =
    "source_id" ∷ "backend" ∷ "spinner" ∷ "tokscale" ∷ "collection" ∷ "logging" ∷ "snapshots" ∷ []

-- Two seconds, in microseconds.
abbrev pub tokscale_cleanup : ℕ
tokscale_cleanup = 2000000

is_hex : ℕ → Bool
is_hex c = (leb b'0' c && leb c b'9') || (leb b'a' c && leb c b'f') || (leb b'A' c && leb c b'F')

-- `[0-9a-fA-F]{n}` in front of a text, and what follows.
after_hex : ℕ → String → Option String
unfolding is_hex
after_hex zero s = some s
after_hex (suc n) String.[] = none
after_hex (suc n) (String.◌∷◌ c s) =
    let rest = after_hex n s in if is_hex (code c) then rest else none

after_dash : Option String → Option String
after_dash (some (String.◌∷◌ c s)) = if code c == b'-' then some s else none
after_dash _ = none

after_group : ℕ → Option String → Option String
unfolding after_hex
after_group n none = none
after_group n (some s) = after_hex n s

-- `_UUID_PATTERN.fullmatch`
is_uuid : String → Bool
unfolding after_hex after_dash after_group
is_uuid s =
    elim (after_group 12 (
      after_dash (
        after_group 4 (
          after_dash (after_group 4 (after_dash (after_group 4 (after_dash (after_hex 8 s))))))))) [
            | some String.[] ↦ true
            | _ ↦ false
          ]

-- The table of a domain with the interval of its schedule replaced, where one is given.
override : Option String → String → Table → Result ConfigError Table
unfolding table_of with_key get
override none name keyed = ok keyed
override (some interval) name keyed =
    table_of (get "schedule" keyed) name ("interval" ∷ []) >>= λ schedule.
    ok (with_key "schedule" (Toml.table (with_key "interval" (text interval) schedule)) keyed)

checked : Bool → String → Result ConfigError Bool
checked true name = ok true
checked false name = err (invalid name)

pub canonical_id : Host → String → Result ConfigError String
unfolding is_uuid
canonical_id host source_id =
    if is_uuid source_id
    then elim (host.canonical source_id) [
      | none ↦ err (invalid "source_id")
      | some canonical ↦ ok canonical
    ]
    else err (invalid "source_id")

-- The part of `_parse_config` that the schedule rests on: the collection runs less often than a command
-- of tokscale and its cleanup may take.
pub timed_collection :
    Host → TokscaleConfig → Option String → Option Toml → Result ConfigError CollectionConfig
unfolding override checked
timed_collection host tokscale schedule_interval toml = do
  keyed ← table_of toml "collection" ("max_retries" ∷ "retry_initial_seconds" ∷ "schedule" ∷ [])
  chosen ← override schedule_interval "collection.schedule" keyed
  collection ← collection_config host chosen
  long_enough ←
      checked (not (leb collection.interval_length (tokscale.timeout + tokscale_cleanup)))
        "collection.schedule.interval"
  ok collection

-- The end of `_parse_config`: the sections that follow the backend.
unfoldable pub parse_sections :
    Host
    → Table
    → Option String
    → Option String
    → String
    → String
    → StorageConfig
    → Result ConfigError UsagebassoonConfig
unfolding timed_collection override
parse_sections host root schedule_interval snapshot_interval spinner source_id storage = do
  tokscale ← tokscale_config host (get "tokscale" root)
  collection ← timed_collection host tokscale schedule_interval (get "collection" root)
  snapshots ←
      table_of (get "snapshots" root) "snapshots"
        ("local" ∷ "gcs" ∷ "schedule" ∷ "max_snapshots" ∷ "timeout" ∷ [])
  chosen ← override snapshot_interval "snapshots.schedule" snapshots
  logging ← logging_config host (get "logging" root)
  archives ← snapshots_config host chosen
  ok (record {
    source_id = source_id;
    spinner = spinner;
    storage = storage;
    tokscale = tokscale;
    collection = collection;
    logging = logging;
    snapshots = archives;
  })

-- `_parse_config`
unfoldable pub parse_config :
    Host → Table → Option String → Option String → Result ConfigError UsagebassoonConfig
unfolding checked canonical_id
parse_config host payload schedule_interval snapshot_interval = do
  root ← reject_unknown_keys payload "root" root_keys
  spinner ← required_string (some (or_else (get "spinner" root) (text "pong"))) "spinner"
  known ← checked (contains host.spinners spinner) "spinner"
  source ← required_string (get "source_id" root) "source_id"
  backends ←
      table_of (get "backend" root) "backend"
        ("provider" ∷ "duckdb" ∷ "motherduck" ∷ "bigquery" ∷ [])
  backend ←
      required_string (some (or_else (get "provider" backends) (text "duckdb"))) "backend.provider"
  supported ← checked (contains supported_backends backend) "backend.provider"
  source_id ← canonical_id host source
  storage ← storage_config host backend backends
  parse_sections host root schedule_interval snapshot_interval spinner source_id storage
