-- ===== src/Archiver/Writing/Reports.antt =====
-- What the result of `write` of src/usagebassoon/archiver.py says of the destinations.
use usagebassoon.Prelude.{
  String, Bool, true, false, Option, none, some, List, [], ◌∷◌, ◌&&◌, is_empty, select, sorted,
  contains, contains-select, contains-sorted, string_eq, string_ord, nat_eq, ◌≡◌, arith, Bool-cases,
  inl, inr, ◌∙◌, sym,
}
use usagebassoon.Archiver.Writing.{
  Failure, Answers, prepare, transfer, complete, finished, Outcome, nothing, stored, raised,
  no_destination, write_error, conclude, due, reported, failures_of, write,
}
use usagebassoon.Archiver.Writing.Laws.{
  prepare-IsReady, release-keeps, transfer-reported, transfer-published, prepare-unpublished,
}

-- The copies that a result or an error says to be there.
abbrev pub uris : Outcome → List String
uris nothing = []
uris (stored uri) = uri ∷ []
uris (raised e) = []
uris no_destination = []
uris (write_error published failed) = published

contains-reported :
    (answers : String → Answers) (locations : List String) (l : String)
    → contains (reported answers locations) l ≡ (
        contains locations l
        && (prepare (answers l)).is_due
        && (transfer (answers l) (prepare (answers l)).copy).is_reported)
unfolding reported due
contains-reported answers locations l = ground (
  arith,
  contains-select (λ (l : String). (transfer (answers l) (prepare (answers l)).copy).is_reported)
      (select (λ (l : String). (prepare (answers l)).is_due) (sorted locations)) l,
  contains-select (λ (l : String). (prepare (answers l)).is_due) (sorted locations) l,
  contains-sorted locations l,
)

reported-is_published :
    (answers : String → Answers) (locations : List String) (l : String)
    → contains (reported answers locations) l ≡ true
    → (finished true (answers l)).is_published ≡ true
unfolding finished complete
reported-is_published answers locations l h =
    let copy = (prepare (answers l)).copy in
    let is_due : (prepare (answers l)).is_due ≡ true =
      ground (arith, h, contains-reported answers locations l) in
    let is_reported : (transfer (answers l) copy).is_reported ≡ true =
      ground (arith, h, contains-reported answers locations l) in
    let ready = prepare-IsReady (answers l) is_due in
    rw is_due (
      (release-keeps (answers l) (transfer (answers l) copy).copy).0
      ∙ transfer-reported (answers l) copy ready.3 is_reported)

uris-conclude :
    (manual : Bool) (locations published : List String) (failures : List (String × Failure))
    (l : String)
    → contains (uris (conclude manual locations published failures)) l ≡ true
    → contains published l ≡ true
unfolding conclude contains
uris-conclude manual locations [] [] l h = cc
uris-conclude manual locations (uri ∷ published) [] l h = ground (arith, h)
uris-conclude manual locations published (failure ∷ failures) l h = ground (arith, h)

-- Every copy that a result of `write` or its error speaks of is published in the end.
pub write-is_published :
    (locations : List String) (manual : Bool) (answers : String → Answers)
    (capture : Option Failure) (l : String)
    → contains (uris (write locations manual answers capture)) l ≡ true
    → (finished true (answers l)).is_published ≡ true
unfolding write contains
write-is_published [] true answers capture l h = cc
write-is_published [] false answers capture l h = cc
write-is_published (first ∷ rest) manual answers none l h =
    let locations = first ∷ rest in
    reported-is_published answers locations l (
      uris-conclude manual locations (reported answers locations) (failures_of answers locations) l
        h)
write-is_published (first ∷ rest) manual answers (some e) l h =
    elim (Bool-cases (is_empty (due answers (first ∷ rest)))) [
      | inl idle ↦
          let empty =
            uris-conclude manual (first ∷ rest) [] (failures_of answers (first ∷ rest)) l
              (rw idle at h) in
          cc
      | inr busy ↦ let wrong = rw busy at h in cc
    ]

conclude-write_error :
    (manual : Bool) (locations published uris failed : List String)
    (failures : List (String × Failure))
    → conclude manual locations published failures ≡ write_error uris failed
    → published ≡ uris
unfolding conclude
conclude-write_error manual locations [] uris failed [] h = cc
conclude-write_error manual locations (uri ∷ published) uris failed [] h = cc
conclude-write_error manual locations published uris failed ((l, e) ∷ failures) h =
    ground (arith, h)

finished-reported :
    (answers : Answers)
    → answers.rollback_check ≡ none
    → answers.rollback_state ≡ none
    → ((prepare answers).is_due && (transfer answers (prepare answers).copy).is_reported)
      ≡ (finished true answers).is_published
unfolding finished complete
finished-reported answers check state =
    let copy = (prepare answers).copy in
    elim (Bool-cases (prepare answers).is_due) [
      | inr no_due ↦ rw no_due (sym (prepare-unpublished answers))
      | inl is_due ↦
          let ready = prepare-IsReady answers is_due in
          rw is_due (
            ground (
              arith,
              release-keeps answers (transfer answers copy).copy,
              transfer-reported answers copy ready.3,
              transfer-published answers copy check state ready.1,
            ))
    ]

-- Where the rollback at a destination can read its state, an error of `write` after the capture lists
-- the destination exactly when it has a published copy.
pub write-eq-write_error :
    (locations : List String) (manual : Bool) (answers : String → Answers)
    (published failed : List String) (l : String)
    → write locations manual answers none ≡ write_error published failed
    → (answers l).rollback_check ≡ none
    → (answers l).rollback_state ≡ none
    → contains published l ≡ (contains locations l && (finished true (answers l)).is_published)
unfolding write
write-eq-write_error [] true answers published failed l h check state = cc
write-eq-write_error [] false answers published failed l h check state = cc
write-eq-write_error (first ∷ rest) manual answers published failed l h check state =
    let locations = first ∷ rest in
    let same : reported answers locations ≡ published =
      conclude-write_error manual locations _ published failed _ h in
    rw (← same) (
      ground
        (arith, contains-reported answers locations l, finished-reported (answers l) check state))
