-- ===== src/Config/Schedules/Tests.antt =====
-- Files whose schedules are replaced as `update_schedule_interval` of src/usagebassoon/config.py does.
use usagebassoon.Prelude.{true, false, none, some, String, List, [], ◌∷◌, all, ok, err, ◌≡◌, refl}
use usagebassoon.Config.{Host}
use usagebassoon.Config.Schedules.{
  collection, snapshots, invalid_interval, setting, is_ended, update_schedule_interval,
}

abbrev linux : Host
linux = record {
  measure = λ s n. some 900000000;
  expand = λ path. path;
  log_directory = "/log";
  snapshot_directory = "/snapshots";
  local_database = "/usage.duckdb";
  spinners = [];
  canonical = λ s. none;
  accepts_gcs = λ uri. true;
  is_emulated = false;
}

abbrev file : List String
file =
    "spinner = \"pong\"\n" ∷ " [collection.schedule] # often\n" ∷ "interval = \"15m\"\n"
    ∷ "[tokscale]\n" ∷ "bin = \"/bin/tokscale\"\n" ∷ []

abbrev updated : List String
updated =
    "spinner = \"pong\"\n" ∷ " [collection.schedule] # often\n" ∷ "interval = \"20m\"\n"
    ∷ "[tokscale]\n" ∷ "bin = \"/bin/tokscale\"\n" ∷ []

update-of-file : update_schedule_interval linux collection "20m" file ≡ ok updated
unfolding update_schedule_interval usagebassoon.Prelude.contains
    usagebassoon.Config.Schedules.is_end usagebassoon.Config.Schedules.is_header
    usagebassoon.Config.Schedules.is_table usagebassoon.Config.Schedules.is_setting
    usagebassoon.Config.Schedules.is_interval
update-of-file = refl

-- A section without an interval has one put before the next table.
update-of-section :
    update_schedule_interval linux collection "20m"
      ("[collection.schedule]\n" ∷ "[tokscale]\n" ∷ [])
    ≡ ok ("[collection.schedule]\n" ∷ "interval = \"20m\"\n" ∷ "[tokscale]\n" ∷ [])
unfolding update_schedule_interval usagebassoon.Prelude.contains
    usagebassoon.Config.Schedules.is_end usagebassoon.Config.Schedules.is_header
    usagebassoon.Config.Schedules.is_table usagebassoon.Config.Schedules.is_setting
update-of-section = refl

-- A file without the section has it put behind its lines, whose last one gets an end.
update-of-other :
    update_schedule_interval linux snapshots "12h" ("spinner = \"pong\"" ∷ [])
    ≡ ok ("spinner = \"pong\"\n" ∷ "\n" ∷ "[snapshots.schedule]\n" ∷ "interval = \"12h\"\n" ∷ [])
unfolding update_schedule_interval usagebassoon.Prelude.contains
    usagebassoon.Config.Schedules.is_end usagebassoon.Config.Schedules.is_header
    usagebassoon.Config.Schedules.is_setting
update-of-other = refl

-- A header at the end of a file without an end of line keeps none: the interval is on its line.
update-of-open_header :
    update_schedule_interval linux collection "20m" ("[collection.schedule]" ∷ [])
    ≡ ok ("[collection.schedule]" ∷ "interval = \"20m\"\n" ∷ [])
unfolding update_schedule_interval usagebassoon.Prelude.contains
    usagebassoon.Config.Schedules.is_end usagebassoon.Config.Schedules.is_header
    usagebassoon.Config.Schedules.is_setting
update-of-open_header = refl

update-of-seconds :
    update_schedule_interval linux collection "20s" file ≡ err (invalid_interval collection)
unfolding update_schedule_interval usagebassoon.Prelude.contains
update-of-seconds = refl
