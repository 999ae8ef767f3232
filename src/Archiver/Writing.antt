-- ===== src/Archiver/Writing.antt =====
-- One snapshot at several destinations: `write` and `_rollback` of src/usagebassoon/archiver.py.
-- What the calls of a destination's catalog and bucket do in the run is a record of answers. A call
-- that raises may have had its effect before.
mod Laws
mod Reports
mod Tests
use mathlib.Core.List.{reverse}
use usagebassoon.Prelude.{
  ℕ, String, Bool, true, false, Option, none, some, List, [], ◌∷◌, ◌++◌, ◌&&◌, ◌||◌, not, ◌==◌,
  nat_eq, all, is_empty, length, map, concat_map, select, sorted, string_eq, string_ord,
  if◌then◌else◌, Result, ok, err,
}

-- An exception: `ArchiveBusy`, or another one.
pub data Failure : Type 0 where
  busy : Failure
  other : String → Failure

-- A call that has an effect: it returns, or it raises, with its effect or without.
pub data Call : Type 0 where
  returned : Call
  failed : Bool → Failure → Call

-- The answers at one destination, in the order in which `write` and `_rollback` ask for them. The exit
-- of `hold` may raise, as it checks its reservation; and whether or not it does, its removal of the
-- reservation may fail, which is only logged: `lets_go` says that it took effect.
pub record Answers : Type 0 where
  pub opened : Option Failure
  pub first_roles : Result Failure (List String)
  pub claimed : Option Failure
  pub second_roles : Result Failure (List String)
  pub staged : Call
  pub transferred : Option Failure
  pub published : Call
  pub recorded : Option Failure
  pub rotated : Option Failure
  pub rollback_check : Option Failure
  pub rollback_state : Option Failure
  pub rollback_record : Option Failure
  pub rollback_retire : Call
  pub released : Option Failure
  pub lets_go : Bool

-- What is true of the snapshot at a destination: whether its reservation is held, whether `written`
-- has the destination, and the lifecycle record.
pub record Copy : Type 0 where
  pub held : Bool
  pub is_written : Bool
  pub is_staged : Bool
  pub is_published : Bool
  pub is_retired : Bool

abbrev pub no_copy : Copy
no_copy = record {
  held = false;
  is_written = false;
  is_staged = false;
  is_published = false;
  is_retired = false;
}

-- The effect of a call took place.
pub has_effect : Call → Bool
has_effect returned = true
has_effect (failed effect e) = effect

failure_of : Call → Option Failure
failure_of returned = none
failure_of (failed effect e) = some e

listed : Option Failure → List Failure
listed none = []
listed (some e) = e ∷ []

-- The calls in turn: the first that raises.
first_failure : Option Failure → Option Failure → Option Failure
first_failure (some e) rest = some e
first_failure none rest = rest

-- `_rollback` of one destination, and whether it retains the copy.
pub rollback : Answers → Copy → Copy × Bool
unfolding has_effect
rollback answers copy =
    if not copy.is_written
    then (copy, false)
    else elim (first_failure answers.rollback_check answers.rollback_state) [
      | some e ↦ (copy, false)
      | none ↦ if copy.is_published then (copy, true) else elim answers.rollback_record [
        | some e ↦ (copy, false)
        | none ↦ (record copy { is_retired = has_effect answers.rollback_retire }, false)
      ]
    ]

-- The end of a reservation, which stays until it expires if its removal fails. Without one there is
-- nothing to end.
pub release : Answers → Copy → Copy × List Failure
release answers copy =
    if copy.held
    then (record copy { held = not answers.lets_go }, listed answers.released)
    else (copy, [])

-- A destination after its preparation: its copy, the failures, and whether it is due.
pub record Prepared : Type 0 where
  pub copy : Copy
  pub failures : List Failure
  pub is_due : Bool

give_up : Answers → List Failure → Copy → Prepared
unfolding release
give_up answers failures copy =
    let (after, more) = release answers copy in
    record { copy = after; failures = failures ++ more; is_due = false }

stage_copy : Answers → Copy → Prepared
unfolding give_up rollback has_effect
stage_copy answers copy = elim answers.staged [
  | returned ↦ record { copy = record copy { is_staged = true }; failures = []; is_due = true }
  | failed effect e ↦
      give_up answers (e ∷ []) (rollback answers (record copy { is_staged = effect })).0
]

-- With the reservation: the memberships are asked for again.
prepare_held : Answers → Prepared
unfolding give_up stage_copy
prepare_held answers =
    let holding : Copy = record no_copy { held = true } in
    elim answers.second_roles [
      | err e ↦ give_up answers (e ∷ []) holding
      | ok [] ↦ give_up answers [] holding
      | ok (role ∷ roles) ↦ stage_copy answers (record holding { is_written = true })
    ]

nothing_due : List Failure → Prepared
nothing_due failures = record { copy = no_copy; failures = failures; is_due = false }

-- One round of the loop over the locations.
pub prepare : Answers → Prepared
unfolding prepare_held nothing_due listed
prepare answers = elim answers.opened [
  | some e ↦ nothing_due (e ∷ [])
  | none ↦ elim answers.first_roles [
    | err e ↦ nothing_due (e ∷ [])
    | ok [] ↦ nothing_due []
    | ok (role ∷ roles) ↦ elim answers.claimed [
      | some e ↦ nothing_due (e ∷ [])
      | none ↦ prepare_held answers
    ]
  ]
]

-- A due destination after its transfers: its copy, the failure, and whether `published` has it.
pub record Transferred : Type 0 where
  pub copy : Copy
  pub failure : Option Failure
  pub is_reported : Bool

after_failure : Answers → Failure → Bool → Copy → Transferred
unfolding rollback
after_failure answers e reported copy =
    let (after, retained) = rollback answers copy in
    record { copy = after; failure = some e; is_reported = reported || retained }

-- One round of the loop over the due destinations.
pub transfer : Answers → Copy → Transferred
unfolding after_failure has_effect failure_of first_failure
transfer answers copy = elim answers.transferred [
  | some e ↦ after_failure answers e false copy
  | none ↦
      let current : Copy = record copy { is_published = has_effect answers.published } in
      elim answers.published [
        | failed effect e ↦ after_failure answers e false current
        | returned ↦ elim (first_failure answers.recorded answers.rotated) [
          | some e ↦ after_failure answers e true current
          | none ↦ record { copy = current; failure = none; is_reported = true }
        ]
      ]
]

-- What becomes of a due copy: `captured` says that the capture and the manifest were made.
complete : Bool → Answers → Copy → Copy
unfolding transfer rollback
complete true answers copy = (transfer answers copy).copy
complete false answers copy = (rollback answers copy).0

-- The copy when `write` is done with it.
pub finished : Bool → Answers → Copy
unfolding prepare complete release
finished captured answers =
    let prepared = prepare answers in
    if prepared.is_due
    then (release answers (complete captured answers prepared.copy)).0
    else prepared.copy

pub data Outcome : Type 0 where
  nothing : Outcome
  stored : String → Outcome
  raised : Failure → Outcome
  no_destination : Outcome
  write_error : List String → List String → Outcome

is_busy : Failure → Bool
is_busy busy = true
is_busy (other e) = false

-- `tuple(dict.fromkeys(values))`
unique : List String → List String
unique [] = []
unique (x ∷ xs) = x ∷ select (λ y. not (x == y)) (unique xs)

-- The end of `write`: `failures` has each with its destination.
conclude : Bool → List String → List String → List (String × Failure) → Outcome
unfolding unique is_busy
conclude manual locations [] [] = nothing
conclude manual locations (uri ∷ uris) [] = stored uri
conclude manual locations published ((location, e) ∷ failures) =
    if is_empty published && not manual && all (λ f. is_busy f.1) ((location, e) ∷ failures)
    then nothing
    else if (length locations == 1) && is_empty published
    then raised e
    else write_error published (unique (location ∷ map (λ f. f.0) failures))

-- The locations that are due, and those of them that `published` has in the end.
due : (String → Answers) → List String → List String
unfolding prepare
due answers locations = select (λ l. (prepare (answers l)).is_due) (sorted locations)

pub reported : (String → Answers) → List String → List String
unfolding due prepare transfer
reported answers locations =
    select (λ l. (transfer (answers l) (prepare (answers l)).copy).is_reported)
      (due answers locations)

at_location : String → List Failure → List (String × Failure)
at_location l [] = []
at_location l (e ∷ failures) = (l, e) ∷ at_location l failures

-- The failures of the three loops: the releases are made in the reverse order.
failures_of : (String → Answers) → List String → List (String × Failure)
unfolding due prepare transfer release listed at_location
failures_of answers locations =
    concat_map (λ l. at_location l (prepare (answers l)).failures) (sorted locations)
    ++ (concat_map
          (λ l. at_location l (listed (transfer (answers l) (prepare (answers l)).copy).failure))
          (due answers locations)
        ++ concat_map
            (λ l.
              at_location l
                (release (answers l) (transfer (answers l) (prepare (answers l)).copy).copy).1)
            (reverse (due answers locations)))

-- `write`, with what the capture raises. The snapshot's name stands in front of nothing else, so a URI
-- is the location.
pub write : List String → Bool → (String → Answers) → Option Failure → Outcome
unfolding reported failures_of conclude due
write [] manual answers capture = if manual then no_destination else nothing
write (l ∷ ls) manual answers none =
    conclude manual (l ∷ ls) (reported answers (l ∷ ls)) (failures_of answers (l ∷ ls))
write (l ∷ ls) manual answers (some e) =
    if is_empty (due answers (l ∷ ls))
    then conclude manual (l ∷ ls) [] (failures_of answers (l ∷ ls))
    else raised e
