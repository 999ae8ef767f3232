-- ===== src/Archiver/Writing/Laws.antt =====
-- What `write` of src/usagebassoon/archiver.py leaves at its destinations, and what it says of them.
use usagebassoon.Prelude.{
  Bool, true, false, none, ◌&&◌, ◌||◌, string_eq, string_ord, ◌≡◌, arith, Bool-cases, inl, inr,
}
use usagebassoon.Archiver.Writing.{
  Answers, returned, Copy, has_effect, first_failure, rollback, release, prepare, prepare_held,
  stage_copy, give_up, transfer, after_failure, finished, complete,
}

-- A copy that waits for its transfers, and one that `write` is done with before them.
abbrev pub IsReady : Copy → Type 0
IsReady copy =
    (copy.held ≡ true)
    × (copy.is_written ≡ true)
    × (copy.is_staged ≡ true)
    × (copy.is_published ≡ false)
    × (copy.is_retired ≡ false)

IsOver : Answers → Copy → Type 0
IsOver answers copy =
    ((copy.held && answers.lets_go) ≡ false) × ((copy.is_published && copy.is_retired) ≡ false)

pub prepare-IsReady :
    (answers : Answers) → (prepare answers).is_due ≡ true → IsReady (prepare answers).copy
unfolding prepare prepare_held stage_copy
prepare-IsReady answers h = ground arith

prepare-IsOver :
    (answers : Answers) → (prepare answers).is_due ≡ false → IsOver answers (prepare answers).copy
unfolding prepare prepare_held stage_copy give_up release rollback IsOver
prepare-IsOver answers h = ground arith

-- A copy that is not retired before a rollback is not both published and retired after it.
rollback-exclusive :
    (answers : Answers) (copy : Copy)
    → copy.is_retired ≡ false
    → (((rollback answers copy).0.is_published && (rollback answers copy).0.is_retired) ≡ false)
unfolding rollback
rollback-exclusive answers copy h = ground arith

transfer-exclusive :
    (answers : Answers) (copy : Copy)
    → copy.is_retired ≡ false
    → (((transfer answers copy).copy.is_published && (transfer answers copy).copy.is_retired)
        ≡ false)
unfolding transfer after_failure rollback
transfer-exclusive answers copy h = ground arith

release-IsOver :
    (answers : Answers) (copy : Copy)
    → (copy.is_published && copy.is_retired) ≡ false
    → IsOver answers (release answers copy).0
unfolding release IsOver
release-IsOver answers copy h = ground arith

complete-exclusive :
    (captured : Bool) (answers : Answers) (copy : Copy)
    → copy.is_retired ≡ false
    → (((complete captured answers copy).is_published
          && (complete captured answers copy).is_retired)
        ≡ false)
unfolding complete
complete-exclusive true answers copy h = transfer-exclusive answers copy h
complete-exclusive false answers copy h = rollback-exclusive answers copy h

pub finished-IsOver :
    (captured : Bool) (answers : Answers)
    → (((finished captured answers).held && answers.lets_go) ≡ false)
      × (((finished captured answers).is_published && (finished captured answers).is_retired)
          ≡ false)
unfolding finished IsOver
finished-IsOver captured answers = elim (Bool-cases (prepare answers).is_due) [
  | inr no_due ↦ rw no_due (prepare-IsOver answers no_due)
  | inl is_due ↦
      let copy = (prepare answers).copy in
      let ready = prepare-IsReady answers is_due in
      rw is_due (
        release-IsOver answers (complete captured answers copy)
          (complete-exclusive captured answers copy ready.4))
]

-- What a rollback leaves is retired, if it was not published and the rollback's calls return.
Recovers : Answers → Type 0
Recovers answers =
    (answers.rollback_check ≡ none)
    × (answers.rollback_state ≡ none)
    × (answers.rollback_record ≡ none)
    × (answers.rollback_retire ≡ returned)

complete-recovered :
    (captured : Bool) (answers : Answers) (copy : Copy)
    → Recovers answers
    → copy.is_written ≡ true
    → ((complete captured answers copy).is_published || (complete captured answers copy).is_retired)
      ≡ true
unfolding complete transfer after_failure rollback Recovers
complete-recovered true answers copy h g = ground arith
complete-recovered false answers copy h g = ground arith

prepare-recovered :
    (answers : Answers)
    → Recovers answers
    → (prepare answers).is_due ≡ false
    → (prepare answers).copy.is_staged ≡ true
    → (prepare answers).copy.is_retired ≡ true
unfolding prepare prepare_held stage_copy give_up release rollback Recovers first_failure
prepare-recovered answers h g staged = ground arith

pub release-keeps :
    (answers : Answers) (copy : Copy)
    → ((release answers copy).0.is_published ≡ copy.is_published)
      × ((release answers copy).0.is_retired ≡ copy.is_retired)
unfolding release
release-keeps answers copy = ground arith

-- Where the calls of a rollback return, nothing is left half written: a copy whose stage took effect is
-- published or retired in the end, whether or not the capture was made.
pub finished-recovered :
    (captured : Bool) (answers : Answers)
    → answers.rollback_check ≡ none
    → answers.rollback_state ≡ none
    → answers.rollback_record ≡ none
    → answers.rollback_retire ≡ returned
    → (finished captured answers).is_staged ≡ true
    → ((finished captured answers).is_published || (finished captured answers).is_retired) ≡ true
unfolding finished Recovers
finished-recovered captured answers check state record_ retire staged =
    let recovers : Recovers answers = (check, state, record_, retire) in
    let copy = (prepare answers).copy in
    elim (Bool-cases (prepare answers).is_due) [
      | inl is_due ↦
          let kept = release-keeps answers (complete captured answers copy) in
          ground (
            arith,
            is_due,
            kept,
            prepare-IsReady answers is_due,
            complete-recovered captured answers copy recovers,
          )
      | inr no_due ↦ ground (arith, no_due, staged, prepare-recovered answers recovers no_due)
    ]

pub transfer-reported :
    (answers : Answers) (copy : Copy)
    → copy.is_published ≡ false
    → (transfer answers copy).is_reported ≡ true
    → (transfer answers copy).copy.is_published ≡ true
unfolding transfer after_failure rollback has_effect first_failure
transfer-reported answers copy h g = ground arith

pub transfer-published :
    (answers : Answers) (copy : Copy)
    → answers.rollback_check ≡ none
    → answers.rollback_state ≡ none
    → copy.is_written ≡ true
    → (transfer answers copy).copy.is_published ≡ true
    → (transfer answers copy).is_reported ≡ true
unfolding transfer after_failure rollback has_effect first_failure
transfer-published answers copy check state h g = ground arith

pub prepare-unpublished : (answers : Answers) → (prepare answers).copy.is_published ≡ false
unfolding prepare prepare_held stage_copy give_up release rollback
prepare-unpublished answers = ground arith
