-- ===== src/Snapshot/Lifecycles.antt =====
-- The lifecycle states that `stage`, `publish`, `pin` and `retire` of
-- src/usagebassoon/snapshot/catalog.py commit, and what `transition` asks of one.
use Prim.Native.Char.{code}
use Prim.Native.String.{◌++◌ as append}
use usagebassoon.Prelude.{
  ℕ, String, Bool, true, false, Option, none, some, List, [], ◌∷◌, ◌&&◌, ◌||◌, not, ◌==◌, string_eq,
  nat_eq, is_some, any, Dict, leb, if◌then◌else◌, Result, ok, err, ◌>>=◌, starts_with,
}
use usagebassoon.Usage.{Time}
use usagebassoon.Snapshot.Documents.{
  Field, absent, held, malformed, Lifecycle, Reference, Control, Error, archive_busy, value_error,
  state,
}
use usagebassoon.Snapshot.Changes.{Change, transition, is_true, is_false, valid_roles}
use usagebassoon.Snapshot.Reservations.{Owner}

-- `[A-Za-z0-9_-]` of `snapshot_id`.
is_identifier_char : ℕ → Bool
is_identifier_char c =
    (leb b'A' c && leb c b'Z')
    || (leb b'a' c && leb c b'z')
    || (leb b'0' c && leb c b'9')
    || (c == b'_')
    || (c == b'-')

all_identifier : String → Bool
unfolding is_identifier_char
all_identifier String.[] = true
all_identifier (String.◌∷◌ c s) = is_identifier_char (code c) && all_identifier s

-- `snapshot_id`
unfoldable pub is_snapshot_id : String → Bool
unfolding all_identifier
is_snapshot_id s = not (s == "") && all_identifier s

-- What `transition` checks before it commits.
begin_transition : String → Lifecycle → Result Error Change
unfolding is_snapshot_id
begin_transition identifier new =
    if is_snapshot_id identifier && valid_roles new
    then ok (transition identifier new)
    else err value_error

-- The directory of a snapshot, `f"{identifier}/"`.
abbrev pub directory : String → String
directory identifier = append identifier "/"

abbrev pub sidecar : String → String
sidecar identifier = append identifier "/state.json"

-- `value == expected` for a key that may be absent and a value that may be `None`.
unfoldable pub field_is_text : Field String → String → Bool
field_is_text absent expected = false
field_is_text (held value) expected = value == expected
field_is_text malformed expected = false

field_is_number : Field ℕ → Option ℕ → Bool
field_is_number absent none = true
field_is_number (held value) (some expected) = value == expected
field_is_number _ _ = false

owner_fence : Option ℕ → Field ℕ
owner_fence none = absent
owner_fence (some fence) = held fence

-- `stage`
stage :
    Owner → String → Lifecycle → List String → Dict String Lifecycle → Control → Result Error Change
unfolding begin_transition owner_fence
stage by identifier new names portable document =
    if is_some (state identifier portable document)
      || any (λ name. starts_with name (directory identifier)) names
    then err value_error
    else begin_transition identifier
        (record new { owner = held by.owner; fence = owner_fence by.fence })

-- `publish`, without its `check`
publish : Owner → String → Time → Time → Dict String Lifecycle → Control → Result Error Change
unfolding begin_transition field_is_text field_is_number
publish by identifier captured_at now portable document =
    elim (state identifier portable document) [
      | none ↦ err archive_busy
      | some old ↦
          if field_is_text old.owner by.owner && field_is_number old.fence by.fence
          then begin_transition identifier (record old {
            captured_at = held captured_at;
            published = some true;
            indexed = some true;
            verified_at = some now;
          })
          else err archive_busy
    ]

-- `pin`
pin : String → Dict String Lifecycle → Control → Result Error Change
unfolding begin_transition
pin identifier portable document = elim (state identifier portable document) [
  | none ↦ err value_error
  | some old ↦
      if is_false old.retired
      then begin_transition identifier (record old { pinned = some true })
      else err value_error
]

-- `cleanup` of `retire`: what the record holds, or the objects that the bucket lists now.
references : String → Dict String String → List Reference
references identifier [] = []
references identifier ((name, version) ∷ objects) =
    let others = references identifier objects in
    if starts_with name (directory identifier) && not (name == sidecar identifier)
    then record { name = held name; version = held version } ∷ others
    else others

cleanup_of : String → Dict String String → Lifecycle → Field (List Reference)
unfolding references
cleanup_of identifier objects old = elim old.cleanup [
  | absent ↦ held (references identifier objects)
  | held refs ↦ held refs
  | malformed ↦ malformed
]

is_absent {ℓ} : {A : Type ℓ} → Field A → Bool
is_absent absent = true
is_absent (held a) = false
is_absent malformed = false

-- The start of `retire`: the transition that it commits, if the record is not retired already, and
-- the references to delete.
retire :
    String
    → Dict String String
    → Dict String Lifecycle
    → Control
    → Result Error (Option Change × Field (List Reference))
unfolding begin_transition cleanup_of is_absent
retire identifier objects portable document = elim (state identifier portable document) [
  | none ↦ err value_error
  | some old ↦
      let cleanup = cleanup_of identifier objects old in
      if not (is_some old.pinned)
      then err value_error
      else if not (is_true old.retired) || is_absent old.cleanup
      then (begin_transition identifier (record old { retired = some true; cleanup = cleanup })
          >>= λ change. ok (some change, cleanup))
      else ok (none, cleanup)
]
