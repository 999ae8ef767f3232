-- ===== src/Config/Archives/Settings.antt =====
-- What the archives of src/usagebassoon/config.py guarantee when they are accepted.
use usagebassoon.Prelude.{◌≤◌, some, string_eq, ok, >>=-eq-ok, ◌≡◌, arith}
use usagebassoon.Config.{Toml, Table, Host, get, table_of, duration_or, positive_int}
use usagebassoon.Config.Settings.{positive_int-le}
use usagebassoon.Config.Archives.{
  SnapshotsConfig, units_mhd, units_smh, local_snapshot_config, gcs_if_given, snapshots_config,
}

pub snapshots_config-le :
    (host : Host) (keyed : Table) (snapshots : SnapshotsConfig)
    → snapshots_config host keyed ≡ ok snapshots
    → 1 ≤ snapshots.max_snapshots
unfolding snapshots_config
snapshots_config-le host keyed snapshots h =
    let (settings, _, h1) = >>=-eq-ok (table_of (some (Toml.table keyed)) "snapshots" _) _ h in
    let (local, _, h2) = >>=-eq-ok (local_snapshot_config host (get "local" settings)) _ h1 in
    let (gcs, _, h3) = >>=-eq-ok (gcs_if_given host (get "gcs" settings)) _ h2 in
    let (schedule, _, h4) =
      >>=-eq-ok (table_of (get "schedule" settings) "snapshots.schedule" _) _ h3 in
    let (interval, _, h5) =
      >>=-eq-ok
        (duration_or host (get "interval" schedule) "12h" units_mhd "snapshots.schedule.interval") _
        h4 in
    let (timeout, _, h6) =
      >>=-eq-ok (duration_or host (get "timeout" settings) "10m" units_smh "snapshots.timeout") _
        h5 in
    let (most, given, h7) =
      >>=-eq-ok (positive_int (get "max_snapshots" settings) 3 "snapshots.max_snapshots") _ h6 in
    let known =
      positive_int-le (get "max_snapshots" settings) 3 "snapshots.max_snapshots" most given in
    ground (arith, known, h7)
