-- ===== src/Recovery/Tests.antt =====
-- Recoveries as src/usagebassoon/snapshot/reader.py makes them.
use usagebassoon.Prelude.{
  ℕ, ◌+◌, ◌≤◌, String, Bool, true, false, Option, none, some, List, [], ◌∷◌, ◌||◌, not, leb,
  contains, nat_eq, ◌==◌, any, All, select, if◌then◌else◌, string_eq, Result, ok, err, ◌≡◌, refl,
  ◌↔◌, arith,
}
use usagebassoon.Snapshot.Rotation.{Entry}
use usagebassoon.Recovery.{
  latest, with_id, Archive, Candidate, Notice, cannot_read, complete, unreadable, Attempt,
  candidates, prepare,
}
use usagebassoon.Recovery.Newest.{is_usable, prepare-newest, prepare-total}
use usagebassoon.Recovery.Transformations.{
  Transformation, transformation_path, Leads, transformation_path-Leads,
}

abbrev entry : String → ℕ → Entry
entry identifier time = record { snapshot_id = identifier; captured_at = time }

abbrev archive : String → List Entry → Archive
archive uri entries = record {
  uri = uri;
  lists_manifest = λ name. ok true;
  manifest_time = λ name. ok 5;
  listing = λ recovery. ok entries;
}

abbrev locations : List (String × Result String Archive)
locations =
    ("a", ok (archive "a" (entry "old" 5 ∷ entry "new" 9 ∷ [])))
    ∷ ("b", ok (archive "b" (entry "mid" 7 ∷ [])))
    ∷ []

abbrev no_archive : String → Result String Archive
no_archive uri = err "no archive"

abbrev copy : String → String → ℕ → Candidate
copy bucket identifier time = record {
  bucket = bucket;
  identifier = identifier;
  captured_at = time;
}

-- The newest copy is damaged.
abbrev answers : Candidate → Attempt String
answers c = record {
  reserved = none;
  lifecycle = ok none;
  download = if c.identifier == "new" then unreadable "checksum" else complete c.identifier;
  released = none;
  removed = none;
}

abbrev found : List Candidate
found = copy "a" "new" 9 ∷ copy "b" "mid" 7 ∷ copy "a" "old" 5 ∷ []

candidates-of-two : candidates no_archive locations latest false true ≡ ok (found, true, [])
unfolding candidates usagebassoon.Prelude.sort_by usagebassoon.Prelude.place
candidates-of-two = refl

abbrev warnings : List Notice
warnings =
    Notice.inactive (copy "a" "new" 9)
    ∷ Notice.unreadable_copy (copy "a" "new" 9) "checksum"
    ∷ Notice.inactive (copy "b" "mid" 7)
    ∷ []

prepare-of-damaged :
    prepare no_archive locations answers latest ≡ ok (copy "b" "mid" 7, "mid", warnings)
unfolding prepare usagebassoon.Prelude.sort_by usagebassoon.Prelude.place
prepare-of-damaged = refl

-- An exact request does not fall back to another copy.
prepare-of-exact :
    prepare no_archive locations answers (with_id "new")
    ≡ err (cannot_read (copy "b" "new" 5) "checksum")
unfolding prepare usagebassoon.Snapshot.Lifecycles.is_snapshot_id usagebassoon.Prelude.sort_by
    usagebassoon.Prelude.place
prepare-of-exact = refl

prepare-newest_example :
    ((answers (copy "b" "mid" 7)).download ≡ complete "mid")
    × All (λ c. (not (is_usable (answers c)) || leb c.captured_at 7) ≡ true) found
prepare-newest_example =
    prepare-newest no_archive locations answers latest found true [] warnings (copy "b" "mid" 7)
      "mid" candidates-of-two prepare-of-damaged

prepare-total_example :
    (result : Candidate × String × List Notice) × (prepare no_archive locations answers latest
      ≡ ok result)
prepare-total_example =
    prepare-total no_archive locations answers latest found [] candidates-of-two
      (refl, (refl, (refl, tt))) refl

abbrev step : ℕ → Transformation
step version = record { from_version = version; to_version = version + 1 }

abbrev steps : List Transformation
steps = step 1 ∷ step 2 ∷ []

abbrev contracts : List ℕ
contracts = 1 ∷ 2 ∷ 3 ∷ []

path-of-one : transformation_path steps contracts 3 1 ≡ ok steps
unfolding transformation_path contains
path-of-one = refl

transformation_path-Leads_example :
    (transformation_path steps contracts 3 1 ≡ ok steps) ↔ Leads steps contracts 1 3 steps
transformation_path-Leads_example = transformation_path-Leads steps contracts 3 1 steps
