-- ===== src/Snapshot/Changes.antt =====
-- The changes that `Catalog.mutate` of src/usagebassoon/snapshot/catalog.py commits, and the
-- operations that build a lifecycle state for one.
use Prim.Native.String.{◌++◌ as append}
use mathlib.Core.Option
use usagebassoon.Prelude.{
  ℕ, ◌+◌, String, Bool, false, Option, none, some, List, [], ◌∷◌, ◌&&◌, not, ◌==◌, ◌>>=◌, string_eq,
  nat_eq, any, all, contains, Dict, lookup, insert, remove, or_else, if◌then◌else◌, Result, ok, err,
  option_eq, starts_with, string_discrete, ℕ_discrete,
}
use usagebassoon.Usage.{Time}
use usagebassoon.Snapshot.Documents.{
  Field, absent, held, malformed, Lifecycle, Reference, Policy, Evidence, Control, records_of,
  Error, archive_busy, value_error, key_error, precondition_error,
}

abbrev pub is_true : Option Bool → Bool
is_true none = false
is_true (some b) = b

abbrev pub is_false : Option Bool → Bool
is_false none = false
is_false (some b) = not b

-- A change with the values that its closure holds. `forget` has the names that the bucket lists
-- under the identifier when it runs.
pub data Change : Type 0 where
  transition : String → Lifecycle → Change
  forget : String → Lifecycle → List String → Change
  record_outcome : String → Time → Option String → Change
  enforce_policy : ℕ → Change
  replace_policy : ℕ → Change
  mark_indexed : List String → List String → Change

unfoldable pub valid_roles : Lifecycle → Bool
valid_roles state =
    all (λ role. contains ("manual" ∷ "scheduled" ∷ "weekly" ∷ []) role) (or_else state.roles [])

-- `previous.get("revision", 0)`, or that of the new state where there is no previous record.
unfoldable pub revision_of : Option Lifecycle → Lifecycle → Field ℕ
revision_of none state = state.revision
revision_of (some previous) state = previous.revision

unfoldable pub was_retired : Option Lifecycle → Bool
was_retired none = false
was_retired (some previous) = is_true previous.retired

unfoldable pub next_revision : Field ℕ → Result Error ℕ
next_revision absent = ok 1
next_revision (held revision) = ok (revision + 1)
next_revision malformed = err value_error

Reference-discrete : Discrete Reference
Reference-discrete = hlevel string_discrete

pub Lifecycle-discrete : Discrete Lifecycle
Lifecycle-discrete = hlevel (string_discrete, ℕ_discrete, Reference-discrete)

-- The change of `transition`. It writes the revision and the archive into the state that its
-- closure holds, so a second run starts from those.
unfoldable pub commit_transition : String → Lifecycle → Control → Result Error (Change × Control)
unfolding revision_of was_retired next_revision
commit_transition identifier state document =
    let previous = lookup identifier (records_of document) in
    if was_retired previous && not (is_true state.retired)
    then err value_error
    else next_revision (revision_of previous state) >>= λ revision. elim document.archive_id [
      | none ↦ err key_error
      | some archive ↦
          let written : Lifecycle = record state {
            revision = held revision;
            archive_id = some archive;
          } in
          ok (
            transition identifier written,
            record document { records = some (insert identifier written (records_of document)) },
          )
    ]

-- The change of `retire` that forgets a record whose objects are all deleted.
unfoldable pub forget_record :
    String → Lifecycle → List String → Control → Result Error (Change × Control)
forget_record identifier state names document = elim (lookup identifier (records_of document)) [
  | none ↦ err archive_busy
  | some recorded ↦ elim (Lifecycle-discrete recorded state) [
    | no other ↦ err archive_busy
    | yes same ↦
        if any (λ name. starts_with name (append identifier "/")) names
        then err precondition_error
        else ok (
          forget identifier state names,
          record document { records = some (remove identifier (records_of document)) },
        )
  ]
]

-- The change of `record_outcome`.
unfoldable pub commit_outcome : String → Time → Option String → Control → Control
commit_outcome identifier at error document =
    let evidence : Evidence = record { snapshot_id = identifier; at = at; error = error } in
    elim error [
      | none ↦ record document { last_success = some evidence; last_failure = none }
      | some message ↦ record document { last_failure = some evidence }
    ]

abbrev policy_of : ℕ → Policy
policy_of max_snapshots = record { max_snapshots = max_snapshots; weekly_slots = 4 }

-- `policy_change` of `hold`.
unfoldable pub commit_policy : ℕ → Control → Result Error Control
commit_policy max_snapshots document =
    let written : Control = record document { policy = some (policy_of max_snapshots) } in
    elim document.policy [
      | none ↦ ok written
      | some existing ↦
          if (existing.max_snapshots == max_snapshots) && (existing.weekly_slots == 4)
          then ok written
          else err value_error
    ]

-- `state["indexed"] = identifier in verified_ids` at every published record.
unfoldable pub mark_records : List String → Dict String Lifecycle → Dict String Lifecycle
mark_records verified [] = []
mark_records verified ((identifier, state) ∷ records) =
    let marked : Lifecycle =
      if is_true state.published
      then record state { indexed = some (contains verified identifier) }
      else state in
    (identifier, marked) ∷ mark_records verified records

-- `mark_indexed` of `repair`.
unfoldable pub commit_indexed : List String → List String → Control → Control
unfolding mark_records
commit_indexed verified warnings document = record document {
  records = Option.map (mark_records verified) document.records;
  repair_warnings = warnings;
}

-- A run of a change: what its closure holds afterwards, and the document to be written.
unfoldable pub apply_change : Change → Control → Result Error (Change × Control)
unfolding commit_transition forget_record commit_outcome commit_policy commit_indexed
apply_change (transition identifier state) document = commit_transition identifier state document
apply_change (forget identifier state names) document =
    forget_record identifier state names document
apply_change (record_outcome identifier at error) document =
    ok (record_outcome identifier at error, commit_outcome identifier at error document)
apply_change (enforce_policy max_snapshots) document =
    commit_policy max_snapshots document >>= λ written. ok (enforce_policy max_snapshots, written)
apply_change (replace_policy max_snapshots) document =
    ok (replace_policy max_snapshots, record document { policy = some (policy_of max_snapshots) })
apply_change (mark_indexed verified warnings) document =
    ok (mark_indexed verified warnings, commit_indexed verified warnings document)
