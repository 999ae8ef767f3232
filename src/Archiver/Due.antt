-- ===== src/Archiver/Due.antt =====
-- When `_roles` of src/usagebassoon/archiver.py finds a snapshot due.
use usagebassoon.Prelude.{
  ℕ, ◌+◌, max, String, Bool, false, Option, none, some, List, [], ◌∷◌, ◌++◌, ◌&&◌, ◌||◌, not,
  string_eq, leb, any, all, if◌then◌else◌, ◌≡◌, refl, arith, ◌∙◌,
}
use usagebassoon.Usage.{Time}
use usagebassoon.Snapshot.Documents.{Lifecycle}
use usagebassoon.Snapshot.Changes.{is_false}
use usagebassoon.Snapshot.Lifecycles.{field_is_text}
use usagebassoon.Snapshot.Rotation.{Entry, has_role}
use usagebassoon.Archiver.{Schedule, Found, find, find_all, latest, has_passed, is_due, due_roles}

-- The snapshot is not retired and has the role.
unfoldable pub serves : String → Option Lifecycle → Bool
serves role none = false
serves role (some state) = is_false state.retired && has_role role state

-- The snapshot is the weekly one of the week.
unfoldable pub covers : String → Option Lifecycle → Bool
covers week none = false
covers week (some state) =
    is_false state.retired && has_role "weekly" state && field_is_text state.weekly_slot week

-- No scheduled snapshot is younger than the interval, and without an interval a snapshot is due where
-- there is no configuration.
abbrev pub is_late : Schedule → (String → Option Lifecycle) → List Entry → Time → Bool
is_late schedule states entries now = elim schedule.interval [
  | none ↦ not schedule.configured
  | some interval ↦
      all
        (λ entry.
          not (serves "scheduled" (states entry.snapshot_id))
          || leb (entry.captured_at + interval) now)
        entries
]

abbrev pub is_covered : (String → Option Lifecycle) → List Entry → String → Bool
is_covered states entries week = any (λ entry. covers week (states entry.snapshot_id)) entries

latest-all :
    (now interval time : ℕ) (times : List Time)
    → leb (latest time times + interval) now
      ≡ (leb (time + interval) now && all (λ t. leb (t + interval) now) times)
unfolding latest
latest-all now interval time [] = ground arith
latest-all now interval time (another ∷ times) =
    ground (arith, latest-all now interval (max time another) times)

has_passed-all :
    (now interval : ℕ) (times : List Time)
    → has_passed now interval times ≡ all (λ t. leb (t + interval) now) times
unfolding has_passed
has_passed-all now interval [] = refl
has_passed-all now interval (time ∷ times) = latest-all now interval time times

all-snoc :
    (p : Time → Bool) (times : List Time) (time : Time)
    → all p (times ++ time ∷ []) ≡ (all p times && p time)
all-snoc p [] time = ground arith
all-snoc p (t ∷ times) time = ground (arith, all-snoc p times time)

find-scheduled :
    (p : Time → Bool) (week : String) (entry : Entry) (state : Option Lifecycle) (found : Found)
    → all p (find week entry state found).scheduled
      ≡ (all p found.scheduled && (not (serves "scheduled" state) || p entry.captured_at))
unfolding find serves
find-scheduled p week entry none found = ground arith
find-scheduled p week entry (some state) found =
    ground (arith, all-snoc p found.scheduled entry.captured_at)

find-has_week :
    (week : String) (entry : Entry) (state : Option Lifecycle) (found : Found)
    → (find week entry state found).has_week ≡ (found.has_week || covers week state)
unfolding find covers
find-has_week week entry none found = ground arith
find-has_week week entry (some state) found = ground arith

find_all-scheduled :
    (p : Time → Bool) (states : String → Option Lifecycle) (week : String) (entries : List Entry)
    (found : Found)
    → all p (find_all states week entries found).scheduled ≡ (
        all p found.scheduled
        && all
            (λ entry. not (serves "scheduled" (states entry.snapshot_id)) || p entry.captured_at)
            entries)
unfolding find_all
find_all-scheduled p states week [] found = ground arith
find_all-scheduled p states week (entry ∷ entries) found =
    let state = states entry.snapshot_id in
    ground (
      arith,
      find_all-scheduled p states week entries (find week entry state found),
      find-scheduled p week entry state found,
    )

find_all-has_week :
    (states : String → Option Lifecycle) (week : String) (entries : List Entry) (found : Found)
    → (find_all states week entries found).has_week
      ≡ (found.has_week || is_covered states entries week)
unfolding find_all
find_all-has_week states week [] found = ground arith
find_all-has_week states week (entry ∷ entries) found =
    let state = states entry.snapshot_id in
    ground (
      arith,
      find_all-has_week states week entries (find week entry state found),
      find-has_week week entry state found,
    )

-- A snapshot that is not manual is due as a scheduled one exactly when the interval has passed since
-- every unretired scheduled snapshot, or there is neither an interval nor a configuration, and as a
-- weekly one exactly when the destination is weekly and no unretired weekly snapshot is of this week.
pub due_roles-is_late :
    (schedule : Schedule) (states : String → Option Lifecycle) (entries : List Entry) (now : Time)
    (week : String)
    → due_roles schedule states entries now week false
      ≡ (if is_late schedule states entries now then "scheduled" ∷ [] else [])
        ++ (if schedule.weekly && not (is_covered states entries week) then "weekly" ∷ [] else [])
unfolding due_roles is_due
due_roles-is_late schedule states entries now week =
    let start : Found = record { scheduled = []; has_week = false } in
    let found = find_all states week entries start in
    let due : is_due schedule now found.scheduled ≡ is_late schedule states entries now =
      elim schedule.interval
        as (λ interval.
          (elim interval [
            | none ↦ not schedule.configured
            | some i ↦ has_passed now i found.scheduled
          ])
          ≡ (elim interval [
            | none ↦ not schedule.configured
            | some i ↦
                all
                  (λ entry.
                    not (serves "scheduled" (states entry.snapshot_id))
                    || leb (entry.captured_at + i) now)
                  entries
          ])) [
            | none ↦ refl
            | some i ↦
                has_passed-all now i found.scheduled
                ∙ find_all-scheduled (λ t. leb (t + i) now) states week entries start
          ] in
    rw due (rw (find_all-has_week states week entries start) refl)
