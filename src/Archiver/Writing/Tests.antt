-- ===== src/Archiver/Writing/Tests.antt =====
-- Runs of `write` of src/usagebassoon/archiver.py over two destinations.
use usagebassoon.Prelude.{
  String, Bool, true, false, Option, none, some, List, [], ◌∷◌, ◌&&◌, ◌||◌, contains, string_eq,
  ◌==◌, if◌then◌else◌, ok, err, ◌≡◌, refl,
}
use usagebassoon.Archiver.Writing.{
  busy, other, returned, failed, Answers, finished, stored, nothing, raised, write_error, write,
}
use usagebassoon.Archiver.Writing.Laws.{finished-IsOver, finished-recovered}
use usagebassoon.Archiver.Writing.Reports.{write-eq-write_error}

abbrev smooth : Answers
smooth = record {
  opened = none;
  first_roles = ok ("scheduled" ∷ []);
  claimed = none;
  second_roles = ok ("scheduled" ∷ []);
  staged = returned;
  transferred = none;
  published = returned;
  recorded = none;
  rotated = none;
  rollback_check = none;
  rollback_state = none;
  rollback_record = none;
  rollback_retire = returned;
  released = none;
  lets_go = true;
}

-- The publication takes effect, and its answer is lost.
abbrev lost_answer : Answers
lost_answer = record smooth { published = failed true (other "timeout") }

abbrev full : Answers
full = record smooth { transferred = some (other "no space") }

abbrev occupied : Answers
occupied = record smooth { claimed = some busy }

abbrev two : List String
two = "b" ∷ "a" ∷ []

abbrev one_full : String → Answers
one_full l = if l == "a" then full else lost_answer

write-of-smooth : write two false (λ l. smooth) none ≡ stored "a"
unfolding write usagebassoon.Prelude.sorted
write-of-smooth = refl

write-of-occupied : write two false (λ l. occupied) none ≡ nothing
unfolding write usagebassoon.Prelude.sorted
write-of-occupied = refl

write-of-one : write ("a" ∷ []) true (λ l. occupied) none ≡ raised busy
unfolding write usagebassoon.Prelude.sorted
write-of-one = refl

write-of-full : write two false one_full none ≡ write_error ("b" ∷ []) ("a" ∷ "b" ∷ [])
unfolding write usagebassoon.Prelude.sorted
write-of-full = refl

abbrev retained : List String
retained = "b" ∷ []

write-of-capture : write two false one_full (some (other "backend")) ≡ raised (other "backend")
unfolding write usagebassoon.Prelude.sorted
write-of-capture = refl

finished-IsOver_example :
    (((finished true lost_answer).held && lost_answer.lets_go) ≡ false)
    × (((finished true lost_answer).is_published && (finished true lost_answer).is_retired) ≡ false)
finished-IsOver_example = finished-IsOver true lost_answer

-- A reservation whose removal fails stays.
kept-held : (finished true (record lost_answer { lets_go = false })).held ≡ true
unfolding finished
kept-held = refl

full-staged : (finished true full).is_staged ≡ true
unfolding finished
full-staged = refl

finished-recovered_example :
    ((finished true full).is_published || (finished true full).is_retired) ≡ true
finished-recovered_example = finished-recovered true full refl refl refl refl full-staged

write-eq-write_error_example :
    contains retained "a" ≡ (contains two "a" && (finished true (one_full "a")).is_published)
write-eq-write_error_example =
    write-eq-write_error two false one_full retained ("a" ∷ "b" ∷ []) "a" write-of-full refl refl
