-- ===== src/Snapshot/Retirement/Deletions.antt =====
-- What the deletions of `retire` in src/usagebassoon/snapshot/catalog.py leave.
use usagebassoon.Prelude.{
  ℕ, String, Bool, true, false, not, List, [], ◌∷◌, ◌==◌, string_eq, any, is_empty, length, lookup,
  remove, lookup-remove, starts_with, ok, err, ◌≡◌, ◌∙◌, refl, sym, arith, Bool-cases, Result-cases,
  inl, inr, ◌⊎◌, ap, Result,
}
use usagebassoon.Snapshot.Documents.{Error, Reference}
use usagebassoon.Snapshot.Lifecycles.{directory, sidecar}
use usagebassoon.Snapshot.Retirement.{
  Objects, scoped, delete_present, delete_references, under, delete_sidecar, delete_objects,
}

module _ (identifier name : String)
    (outside : starts_with name (directory identifier) ≡ false) where
  scoped-other :
      (ref : Reference) (target version : String)
      → scoped identifier ref ≡ ok (target, version)
      → (target == name) ≡ false
  unfolding scoped
  scoped-other ref target version e = ground (arith, string_eq.beq_iff target name)

  remove-other :
      (target : String) (objects : Objects)
      → (target == name) ≡ false
      → lookup name (remove target objects) ≡ lookup name objects
  remove-other target objects other = lookup-remove target name objects ∙ rw other

  delete_present-other :
      (target version : String) (objects after : Objects)
      → (target == name) ≡ false
      → delete_present target version objects ≡ ok after
      → lookup name after ≡ lookup name objects
  unfolding delete_present
  delete_present-other target version objects after other e =
      ground (arith, remove-other target objects other)

  delete_references-outside :
      (authorised : ℕ → Bool) (refs : List Reference) (objects : Objects)
      → lookup name (delete_references identifier authorised refs objects).0 ≡ lookup name objects
  unfolding delete_references lookup
  delete_references-outside authorised [] objects = refl
  delete_references-outside authorised (ref ∷ refs) objects =
      elim (Result-cases (scoped identifier ref)) [
        | inl (e, refused) ↦ rw (refused, delete_references) refl
        | inr ((target, version), within) ↦ elim (Bool-cases (authorised (length refs))) [
          | inr lost ↦ rw (within, lost, delete_references) refl
          | inl live ↦ elim (Result-cases (delete_present target version objects)) [
            | inl (e, kept) ↦ rw (within, live, kept, delete_references) refl
            | inr (after, deleted) ↦
                rw (within, live, deleted, delete_references)
                  (delete_references-outside authorised refs after
                    ∙ delete_present-other target version objects after
                        (scoped-other ref target version within) deleted)
          ]
        ]
      ]

  delete_sidecar-outside :
      (authorised : Bool) (objects : Objects)
      → (sidecar identifier == name) ≡ false
      → lookup name (delete_sidecar identifier authorised objects).0 ≡ lookup name objects
  unfolding delete_sidecar
  delete_sidecar-outside authorised objects other =
      ground (arith, remove-other (sidecar identifier) objects other)

under-remove :
    (identifier : String) (objects : Objects)
    → any (λ name. not (name == sidecar identifier)) (under identifier objects) ≡ false
    → under identifier (remove (sidecar identifier) objects) ≡ []
unfolding under remove
under-remove identifier [] h = refl
under-remove identifier ((name, version) ∷ objects) h =
    ground (arith, under-remove identifier objects)

empty-eq {ℓ} : {A : Type ℓ} (xs : List A) → is_empty xs ≡ true → xs ≡ []
empty-eq [] h = refl
empty-eq (x ∷ xs) h = cc

delete_sidecar-under :
    (identifier : String) (authorised : Bool) (objects after : Objects)
    → delete_sidecar identifier authorised objects ≡ (after, ok tt)
    → under identifier after ≡ []
unfolding delete_sidecar
delete_sidecar-under identifier authorised objects after e =
    ground (arith, under-remove identifier objects, empty-eq (under identifier objects))

delete_objects-outside :
    (identifier name : String) (authorised : ℕ → Bool) (still : Bool) (refs : List Reference)
    (objects : Objects)
    → starts_with name (directory identifier) ≡ false
    → (sidecar identifier == name) ≡ false
    → lookup name (delete_objects identifier authorised still refs objects).0 ≡ lookup name objects
unfolding delete_objects
delete_objects-outside identifier name authorised still refs objects outside other =
    let kept = delete_references-outside identifier name outside authorised refs objects in
    let deleted = delete_references identifier authorised refs objects in
    elim (Result-cases deleted.1) [
      | inl (e, raised) ↦ rw (raised, delete_objects) kept
      | inr (_, returned) ↦
          rw (returned, delete_objects)
            (delete_sidecar-outside identifier name outside still deleted.0 other ∙ kept)
    ]

delete_objects-under :
    (identifier : String) (authorised : ℕ → Bool) (still : Bool) (refs : List Reference)
    (objects after : Objects)
    → delete_objects identifier authorised still refs objects ≡ (after, ok tt)
    → under identifier after ≡ []
unfolding delete_objects
delete_objects-under identifier authorised still refs objects after e =
    let deleted = delete_references identifier authorised refs objects in
    elim (Result-cases deleted.1) [
      | inl (error, raised) ↦
          let stopped : delete_objects identifier authorised still refs objects
              ≡ (deleted.0, err error) =
            rw (raised, delete_objects) refl in
          cc (stopped, e)
      | inr (done, returned) ↦
          let went_on : delete_objects identifier authorised still refs objects
              ≡ delete_sidecar identifier still deleted.0 =
            rw (returned, delete_objects) refl in
          delete_sidecar-under identifier still deleted.0 after (sym went_on ∙ e)
    ]

-- The deletions of a retirement touch nothing outside the snapshot's directory, whatever goes wrong,
-- and either they raise or they leave no object in the directory.
delete_objects-scope :
    (identifier name : String) (authorised : ℕ → Bool) (still : Bool) (refs : List Reference)
    (objects : Objects)
    → starts_with name (directory identifier) ≡ false
    → (sidecar identifier == name) ≡ false
    → let deleted = delete_objects identifier authorised still refs objects in
      (lookup name deleted.0 ≡ lookup name objects)
      × (((e : Error) × (deleted.1 ≡ err e)) ⊎ (under identifier deleted.0 ≡ []))
delete_objects-scope identifier name authorised still refs objects outside other =
    let deleted = delete_objects identifier authorised still refs objects in
    (
      delete_objects-outside identifier name authorised still refs objects outside other,
      elim (Result-cases deleted.1) [
        | inl raised ↦ inl raised
        | inr (done, returned) ↦ inr (
            delete_objects-under identifier authorised still refs objects deleted.0
              (ap (λ (r : Result Error (Unit {0})). (deleted.0, r)) returned))
      ],
    )
