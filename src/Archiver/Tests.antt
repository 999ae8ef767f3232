-- ===== src/Archiver/Tests.antt =====
-- Obligations that `_roles` of src/usagebassoon/archiver.py finds.
use usagebassoon.Prelude.{
  ℕ, String, Bool, true, false, Option, none, some, List, [], ◌∷◌, ◌++◌, ◌&&◌, not, if◌then◌else◌,
  ◌≡◌, refl,
}
use usagebassoon.Snapshot.Documents.{held, absent, Lifecycle}
use usagebassoon.Snapshot.Rotation.{Entry}
use usagebassoon.Archiver.{Schedule, due_roles}
use usagebassoon.Archiver.Due.{is_late, is_covered, due_roles-is_late}

abbrev kept_state : Lifecycle
kept_state = record {
  pinned = some false;
  retired = some false;
  published = some true;
  indexed = some true;
  roles = some ("scheduled" ∷ "weekly" ∷ []);
  revision = held 1;
  archive_id = some "archive";
  owner = absent;
  fence = held 1;
  captured_at = held 100;
  verified_at = some 101;
  weekly_slot = held "2026-W10";
  cleanup = absent;
  rest = [];
}

abbrev states : String → Option Lifecycle
states identifier = some kept_state

abbrev one_entry : List Entry
one_entry = record { snapshot_id = "first"; captured_at = 100 } ∷ []

abbrev daily : Schedule
daily = record { interval = some 50; configured = true; weekly = true }

due_roles-of-weeks : due_roles daily states one_entry 140 "2026-W11" false ≡ "weekly" ∷ []
unfolding due_roles usagebassoon.Snapshot.Rotation.has_role usagebassoon.Prelude.contains
    usagebassoon.Snapshot.Lifecycles.field_is_text
due_roles-of-weeks = refl

due_roles-of-later : due_roles daily states one_entry 150 "2026-W10" false ≡ "scheduled" ∷ []
unfolding due_roles usagebassoon.Snapshot.Rotation.has_role usagebassoon.Prelude.contains
    usagebassoon.Snapshot.Lifecycles.field_is_text
due_roles-of-later = refl

due_roles-is_late_example :
    due_roles daily states one_entry 150 "2026-W11" false
    ≡ (if is_late daily states one_entry 150 then "scheduled" ∷ [] else [])
      ++ (if daily.weekly && not (is_covered states one_entry "2026-W11")
          then "weekly" ∷ []
          else [])
due_roles-is_late_example = due_roles-is_late daily states one_entry 150 "2026-W11"
