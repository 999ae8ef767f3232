-- ===== src/Config/Archives.antt =====
-- The archives of the configuration: `_local_snapshot_config`, `_gcs_config` and `_snapshots_config` of
-- src/usagebassoon/config.py.
pub mod Settings
use Prim.Native.String.{len, slice}
use package.text.Mathlib.Text.{find?}
use usagebassoon.Prelude.{
  ℕ, String, Bool, true, false, Option, none, some, List, [], ◌∷◌, ◌&&◌, ◌||◌, or_else, is_some,
  starts_with, if◌then◌else◌, Result, ok, err, ◌>>=◌,
}
use usagebassoon.Config.{
  Toml, text, Table, ConfigError, invalid, missing, Host, get, table_of, optional_string,
  required_string, boolean_or_false, positive_int, duration_or,
}

abbrev pub units_smh : List ℕ
units_smh = b's' ∷ b'm' ∷ b'h' ∷ []

abbrev pub units_mhd : List ℕ
units_mhd = b'm' ∷ b'h' ∷ b'd' ∷ []

pub record GcsConfig : Type 0 where
  pub uri : String
  pub project : String
  pub credentials_file : Option String
  pub enable : Bool
  pub disable_weekly : Bool

pub record LocalSnapshotConfig : Type 0 where
  pub path : String
  pub enable : Bool
  pub disable_weekly : Bool

pub record SnapshotsConfig : Type 0 where
  pub timeout : ℕ
  pub max_snapshots : ℕ
  pub local : LocalSnapshotConfig
  pub gcs : Option GcsConfig
  pub interval : String

-- `SnapshotsConfig.enabled`
pub is_enabled : SnapshotsConfig → Bool
is_enabled snapshots =
    snapshots.local.enable || (elim snapshots.gcs [ none ↦ false | some gcs ↦ gcs.enable ])

-- The path of a local archive: a file URI loses its scheme, and another URI is refused.
local_path : Host → Option String → Result ConfigError String
unfolding optional_string
local_path host none = ok host.snapshot_directory
local_path host (some path) =
    if starts_with path "file://"
    then (let rest = slice path 7 (len path) in
        optional_string (some (text rest)) "snapshots.local.path" >>= λ checked.
        ok (host.expand rest))
    else if is_some (find? path "://")
    then err (invalid "snapshots.local.path")
    else ok (host.expand path)

-- `_local_snapshot_config`
local_snapshot_config : Host → Option Toml → Result ConfigError LocalSnapshotConfig
unfolding table_of optional_string local_path boolean_or_false get
local_snapshot_config host toml = do
  settings ← table_of toml "snapshots.local" ("path" ∷ "enable" ∷ "disable_weekly" ∷ [])
  given ← optional_string (get "path" settings) "snapshots.local.path"
  path ← local_path host given
  enable ← boolean_or_false (get "enable" settings) "snapshots.local.enable"
  disable ← boolean_or_false (get "disable_weekly" settings) "snapshots.local.disable_weekly"
  ok (record { path = path; enable = enable; disable_weekly = disable })

-- `_string(value, name, required=required)`
string_if : Bool → Option Toml → String → Result ConfigError (Option String)
unfolding required_string optional_string
string_if true toml name = required_string toml name >>= λ s. ok (some s)
string_if false toml name = optional_string toml name

-- `parse_gcs_uri`, where there is a URI
check_uri : Host → Option String → Result ConfigError String
check_uri host none = ok ""
check_uri host (some uri) =
    if host.accepts_gcs uri then ok uri else err (invalid "snapshots.gcs.uri")

-- `_gcs_config`, for a table that is there. `validate_gcs_environment` is asked where it is enabled.
gcs_config : Host → Toml → Result ConfigError GcsConfig
unfolding table_of boolean_or_false string_if optional_string check_uri get
gcs_config host toml = do
  settings ←
      table_of (some toml) "snapshots.gcs"
        ("uri" ∷ "project" ∷ "credentials_file" ∷ "enable" ∷ "disable_weekly" ∷ [])
  enable ← boolean_or_false (get "enable" settings) "snapshots.gcs.enable"
  allowed ← if enable && host.is_emulated then err (invalid "snapshots.gcs.enable") else ok enable
  uri ← string_if allowed (get "uri" settings) "snapshots.gcs.uri"
  project ← string_if allowed (get "project" settings) "snapshots.gcs.project"
  credentials ← optional_string (get "credentials_file" settings) "snapshots.gcs.credentials_file"
  checked ← check_uri host uri
  disable ← boolean_or_false (get "disable_weekly" settings) "snapshots.gcs.disable_weekly"
  ok (record {
    uri = checked;
    project = or_else project "";
    credentials_file = elim credentials [ none ↦ none | some file ↦ some (host.expand file) ];
    enable = allowed;
    disable_weekly = disable;
  })

gcs_if_given : Host → Option Toml → Result ConfigError (Option GcsConfig)
unfolding gcs_config
gcs_if_given host none = ok none
gcs_if_given host (some toml) = gcs_config host toml >>= λ gcs. ok (some gcs)

-- `_snapshots_config`. There is one remote provider, so no two of them are enabled.
unfoldable pub snapshots_config : Host → Table → Result ConfigError SnapshotsConfig
unfolding table_of local_snapshot_config gcs_if_given duration_or positive_int get
snapshots_config host keyed = do
  settings ←
      table_of (some (Toml.table keyed)) "snapshots"
        ("local" ∷ "gcs" ∷ "schedule" ∷ "max_snapshots" ∷ "timeout" ∷ [])
  local ← local_snapshot_config host (get "local" settings)
  gcs ← gcs_if_given host (get "gcs" settings)
  schedule ← table_of (get "schedule" settings) "snapshots.schedule" ("interval" ∷ [])
  interval ←
      duration_or host (get "interval" schedule) "12h" units_mhd "snapshots.schedule.interval"
  timeout ← duration_or host (get "timeout" settings) "10m" units_smh "snapshots.timeout"
  max_snapshots ← positive_int (get "max_snapshots" settings) 3 "snapshots.max_snapshots"
  ok (record {
    timeout = timeout.1;
    max_snapshots = max_snapshots;
    local = local;
    gcs = gcs;
    interval = interval.0;
  })
