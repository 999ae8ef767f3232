-- ===== src/Snapshot/Retirement.antt =====
-- The deletion of a retired snapshot's objects: `retire` of src/usagebassoon/snapshot/catalog.py.
-- The bucket is a dictionary from an object's name to its version; `authorised` is whether the
-- `check` before a deletion returns, by the number of deletions that come after it.
pub mod Deletions
use usagebassoon.Prelude.{
  ℕ, String, Bool, true, false, not, ◌&&◌, none, some, List, [], ◌∷◌, ◌==◌, string_eq, any,
  is_empty, length, Dict, lookup, remove, lookup-remove, starts_with, if◌then◌else◌, Result, ok,
  err, ◌≡◌, ◌∙◌, refl, sym, arith, Bool-cases, Result-cases, inl, inr,
}
use usagebassoon.Snapshot.Documents.{
  absent, held, malformed, Reference, Error, archive_busy, value_error, precondition_error,
}
use usagebassoon.Snapshot.Lifecycles.{directory, sidecar}

-- The objects of a bucket.
abbrev Objects : Type 0
Objects = Dict String String

-- `bucket.delete`: exactly the version that is named.
delete : String → String → Objects → Result Error Objects
delete name version objects = elim (lookup name objects) [
  | none ↦ err precondition_error
  | some current ↦ if current == version then ok (remove name objects) else err precondition_error
]

-- The name and the version of a reference, if it stands within the snapshot's directory.
scoped : String → Reference → Result Error (String × String)
scoped identifier ref = elim ref.name [
  | absent ↦ err value_error
  | malformed ↦ err value_error
  | held name ↦ elim ref.version [
    | absent ↦ err value_error
    | malformed ↦ err value_error
    | held version ↦
        if starts_with name (directory identifier) && not (name == sidecar identifier)
        then ok (name, version)
        else err value_error
  ]
]

-- A deletion of an object if the bucket still has it.
delete_present : String → String → Objects → Result Error Objects
unfolding delete
delete_present name version objects = elim (lookup name objects) [
  | none ↦ ok objects
  | some current ↦ delete name version objects
]

-- The loop over the references of a cleanup.
delete_references :
    String → (ℕ → Bool) → List Reference → Objects → Objects × Result Error (Unit {0})
unfolding scoped delete_present
delete_references identifier authorised [] objects = (objects, ok tt)
delete_references identifier authorised (ref ∷ refs) objects = elim (scoped identifier ref) [
  | err e ↦ (objects, err e)
  | ok (name, version) ↦ elim (authorised (length refs)) [
    | false ↦ (objects, err archive_busy)
    | true ↦ elim (delete_present name version objects) [
      | err e ↦ (objects, err e)
      | ok after ↦ delete_references identifier authorised refs after
    ]
  ]
]

-- The names that `bucket.list` gives under the directory.
pub under : String → Objects → List String
under identifier [] = []
under identifier ((name, version) ∷ objects) =
    let names = under identifier objects in
    if starts_with name (directory identifier) then name ∷ names else names

-- What comes after the references: the sidecar goes, if nothing else is left.
delete_sidecar : String → Bool → Objects → Objects × Result Error (Unit {0})
unfolding under
delete_sidecar identifier authorised objects =
    let remaining = under identifier objects in
    if any (λ name. not (name == sidecar identifier)) remaining
    then (objects, err precondition_error)
    else if is_empty remaining
    then (objects, ok tt)
    else if authorised
    then (remove (sidecar identifier) objects, ok tt)
    else (objects, err archive_busy)

-- The deletions of `retire`, up to the record itself.
unfoldable pub delete_objects :
    String → (ℕ → Bool) → Bool → List Reference → Objects → Objects × Result Error (Unit {0})
unfolding delete_references delete_sidecar
delete_objects identifier authorised still refs objects =
    let deleted = delete_references identifier authorised refs objects in
    elim deleted.1 [ err e ↦ (deleted.0, err e) | ok _ ↦ delete_sidecar identifier still deleted.0 ]
