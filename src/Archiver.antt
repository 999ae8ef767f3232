-- ===== src/Archiver.antt =====
-- The obligations of a snapshot: `_roles` of src/usagebassoon/archiver.py.
mod Due
pub mod Writing
mod Tests
use usagebassoon.Prelude.{
  ℕ, ◌+◌, max, String, Bool, true, false, Option, none, some, List, [], ◌∷◌, ◌++◌, ◌&&◌, ◌||◌, not,
  ◌==◌, string_eq, leb, contains, if◌then◌else◌,
}
use usagebassoon.Usage.{Time}
use usagebassoon.Snapshot.Documents.{Field, absent, held, malformed, Lifecycle}
use usagebassoon.Snapshot.Changes.{is_false}
use usagebassoon.Snapshot.Lifecycles.{field_is_text}
use usagebassoon.Snapshot.Rotation.{Entry, has_role}

-- The settings of an archiver that `_roles` reads: its interval, whether it has a configuration, and
-- whether the destination is a weekly one.
pub record Schedule : Type 0 where
  pub interval : Option ℕ
  pub configured : Bool
  pub weekly : Bool

-- The loop's variables.
pub record Found : Type 0 where
  pub scheduled : List Time
  pub has_week : Bool

-- One round of the loop, for an entry with its state. A state that is retired, or is not known to be
-- unretired, is passed over.
find : String → Entry → Option Lifecycle → Found → Found
find week entry none found = found
find week entry (some state) found = if not (is_false state.retired) then found else record {
  scheduled =
      if has_role "scheduled" state
      then found.scheduled ++ entry.captured_at ∷ []
      else found.scheduled;
  has_week = found.has_week || (has_role "weekly" state && field_is_text state.weekly_slot week);
}

pub find_all : (String → Option Lifecycle) → String → List Entry → Found → Found
unfolding find
find_all states week [] found = found
find_all states week (entry ∷ entries) found =
    find_all states week entries (find week entry (states entry.snapshot_id) found)

-- `max(scheduled)`, for a list that is not empty.
pub latest : Time → List Time → Time
latest time [] = time
latest time (another ∷ times) = latest (max time another) times

-- `not scheduled or now >= max(scheduled) + self.interval`
pub has_passed : Time → ℕ → List Time → Bool
unfolding latest
has_passed now interval [] = true
has_passed now interval (time ∷ times) = leb (latest time times + interval) now

is_due : Schedule → Time → List Time → Bool
unfolding has_passed
is_due schedule now scheduled = elim schedule.interval [
  | none ↦ not schedule.configured
  | some interval ↦ has_passed now interval scheduled
]

-- `_roles`, with what `entries` and `state` return and `now` as its week.
pub due_roles :
    Schedule → (String → Option Lifecycle) → List Entry → Time → String → Bool → List String
unfolding find_all is_due
due_roles schedule states entries now week true = "manual" ∷ []
due_roles schedule states entries now week false =
    let found = find_all states week entries (record { scheduled = []; has_week = false }) in
    (if is_due schedule now found.scheduled then "scheduled" ∷ [] else [])
    ++ (if schedule.weekly && not found.has_week then "weekly" ∷ [] else [])
