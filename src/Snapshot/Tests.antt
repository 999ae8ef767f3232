-- ===== src/Snapshot/Tests.antt =====
-- Runs of the archive of src/usagebassoon/snapshot/catalog.py.
use usagebassoon.Prelude.{
  ℕ, ◌+◌, ◌≤◌, ◌&&◌, not, String, Bool, true, false, Option, none, some, List, [], ◌∷◌, Dict,
  contains, length, select, starts_with, lookup, remove, Result, ok, err, ◌≡◌, ◌⊎◌, refl, arith,
  string_eq, nat_eq, insert, any, all,
}
use usagebassoon.Snapshot.Documents.{
  absent, held, Lifecycle, Reference, Control, no_control, archive_busy, operation_timeout,
}
use usagebassoon.Snapshot.Changes.{transition, replace_policy, apply_change, commit_transition}
use usagebassoon.Snapshot.Reservations.{Owner, claim, renew, commit}
use usagebassoon.Snapshot.Commits.{
  claims, commits, perform, written, Store, settle, Moment, in_time, made_late, overdue,
  update_reservation, Course, mutate,
}
use usagebassoon.Snapshot.Steps.{wrote, Reach, here, next, is_fenced}
use usagebassoon.Snapshot.Histories.{IsAtomic, mutate-IsAtomic}
use usagebassoon.Snapshot.Ownership.{claim-shuts_out}
use usagebassoon.Snapshot.Records.{record_of, IsLater, Reach-Moved}
use usagebassoon.Snapshot.Rotation.Bounds.{rotate-bounds, rotate-unpinned}
use usagebassoon.Snapshot.Rotation.{Entry, is_kept, rotate_rounds, rotate}
use usagebassoon.Snapshot.Retirement.{delete_objects}
use usagebassoon.Snapshot.Accepted.{control_accepts, is_proper, perform-accepted}
use usagebassoon.Snapshot.Lifecycles.{directory}

abbrev first : Owner
first = record { owner = "first"; fence = none; failed = false }

abbrev second : Owner
second = record { owner = "second"; fence = none; failed = false }

-- The first owner's reservation has lapsed at 300000001.
abbrev reserved : Control
reserved = record no_control {
  fence = 1;
  reservation = some (record { owner = "first"; fence = 1; expires_at = 300000000 });
  archive_id = some "archive";
}

abbrev holder : Owner
holder = record first { fence = some 1 }

abbrev store : Store
store = record { document = reserved; version = 1 }

abbrev quiet : ℕ → Moment
quiet left = record { now = 400000000; others = []; pace = in_time }

abbrev taken : Store
taken = record {
  document = record reserved {
    fence = 2;
    reservation = some (record { owner = "second"; fence = 2; expires_at = 700000000 });
  };
  version = 2;
}

second-claims :
    update_reservation true "other" quiet second store
    ≡ (taken, ok (record second { fence = some 2 }))
unfolding update_reservation claim settle
second-claims = refl

reserved-fenced : is_fenced reserved ≡ true
unfolding is_fenced
reserved-fenced = refl

claim-shuts_out_example :
    (commit holder 1 (replace_policy 3) taken.document ≡ err archive_busy)
    × (renew 1 "other" holder taken.document ≡ err archive_busy)
claim-shuts_out_example =
    claim-shuts_out quiet "other" second (record second { fence = some 2 }) holder store taken 1 1
      (replace_policy 3) reserved-fenced refl (omega arith) second-claims here

abbrev staged : Lifecycle
staged = record {
  pinned = some false;
  retired = some false;
  published = some false;
  indexed = none;
  roles = some ("scheduled" ∷ []);
  revision = absent;
  archive_id = none;
  owner = held "first";
  fence = held 1;
  captured_at = absent;
  verified_at = none;
  weekly_slot = absent;
  cleanup = absent;
  rest = [];
}

-- The first write of the second owner falls between the read and the write of the attempt.
abbrev course : Course
course = record {
  checked_at = 1;
  renewals = quiet;
  fresh = "other";
  between = [];
  attempts =
      λ left. record { now = 2; others = claims second 400000000 "other" ∷ []; pace = in_time };
}

mutate-IsAtomic_example :
    IsAtomic (commit holder) store (mutate course holder (transition "one" staged) store)
mutate-IsAtomic_example = mutate-IsAtomic course holder (transition "one" staged) store

-- A write whose time is over when it was made is raised, and is there.
late-write :
    mutate
      (record course {
        attempts = λ left. record { now = 2; others = []; pace = made_late overdue };
      })
      holder
      (replace_policy 3)
      store
    ≡ (
      record {
        document = record reserved {
          policy = some (record { max_snapshots = 3; weekly_slots = 4 });
        };
        version = 2;
      },
      err operation_timeout,
    )
unfolding mutate commit settle apply_change usagebassoon.Snapshot.Commits.error_of
late-write = refl

abbrev retired_state : Lifecycle
retired_state = record staged { retired = some true; revision = held 4 }

abbrev with_retired : Control
with_retired = record reserved { records = some (("one", retired_state) ∷ []) }

with_retired-record : record_of "one" with_retired ≡ some retired_state
unfolding lookup
with_retired-record = refl

abbrev with_policy : Control
with_policy = record with_retired { policy = some (record { max_snapshots = 3; weekly_slots = 4 }) }

policy-written : perform (commits holder 2 (replace_policy 3)) with_retired ≡ some with_policy
unfolding perform written commit apply_change
policy-written = refl

Reach-Moved_example :
    ((u : Control) × Reach with_retired u × (record_of "one" u ≡ none))
    ⊎ ((new : Lifecycle) × (record_of "one" with_policy ≡ some new) × IsLater retired_state new)
Reach-Moved_example =
    Reach-Moved "one" retired_state with_retired-record
      (next here (wrote (commits holder 2 (replace_policy 3)) policy-written))

revive-refused : perform (commits holder 2 (transition "one" staged)) with_retired ≡ none
unfolding perform commit_transition written commit apply_change lookup
revive-refused = refl

reserved-accepted : control_accepts reserved ≡ true
unfolding control_accepts
reserved-accepted = refl

claim-proper : is_proper (claims second 400000000 "other") ≡ true
unfolding is_proper
claim-proper = refl

claim-written : perform (claims second 400000000 "other") reserved ≡ some taken.document
unfolding perform written claim
claim-written = refl

perform-accepted_example : control_accepts taken.document ≡ true
perform-accepted_example =
    perform-accepted (claims second 400000000 "other") reserved taken.document claim-proper
      reserved-accepted claim-written

abbrev entry : String → ℕ → Entry
entry identifier captured = record { snapshot_id = identifier; captured_at = captured }

abbrev listed : List Entry
listed = entry "one" 1 ∷ entry "two" 2 ∷ entry "three" 3 ∷ []

rotate-oldest : rotate 2 (λ _. some staged) listed ≡ "one" ∷ []
unfolding rotate usagebassoon.Prelude.sort_by usagebassoon.Prelude.place contains
rotate-oldest = refl

rotate-bounds_example :
    length (select is_kept (rotate_rounds 2 (λ _. some staged) 0 [] listed)) ≤ 2 + 4
rotate-bounds_example = rotate-bounds 2 (λ _. some staged) listed

one-chosen : contains (rotate 2 (λ _. some staged) listed) "one" ≡ true
unfolding contains rotate usagebassoon.Prelude.sort_by usagebassoon.Prelude.place
one-chosen = refl

rotate-unpinned_example :
    (state : Lifecycle) × (◌≡◌ {A = Option Lifecycle} (some staged) (some state))
    × (state.retired ≡ some false)
    × (state.pinned ≡ some false)
rotate-unpinned_example = rotate-unpinned 2 (λ _. some staged) listed "one" one-chosen

abbrev objects : Dict String String
objects = ("one/COMPLETE", "7") ∷ ("one/state.json", "8") ∷ ("two/COMPLETE", "9") ∷ []

abbrev cleanup : List Reference
cleanup = record { name = held "one/COMPLETE"; version = held "7" } ∷ []

other-outside : starts_with "two/COMPLETE" (directory "one") ≡ false
other-outside = refl

one-deleted :
    delete_objects "one" (λ _. true) true cleanup objects ≡ (("two/COMPLETE", "9") ∷ [], ok tt)
unfolding delete_objects usagebassoon.Prelude.remove lookup
one-deleted = refl
