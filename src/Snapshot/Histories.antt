-- ===== src/Snapshot/Histories.antt =====
-- The compare-and-swap loops of src/usagebassoon/snapshot/catalog.py against the histories of
-- writes: what a loop writes is one step of the history.
use usagebassoon.Prelude.{
  ℕ, zero, suc, ◌≤◌, String, true, none, some, List, [], ◌∷◌, ◌++◌, ◌==◌, nat_eq, Result, ok, err,
  ◌≡◌, refl, sym, ◌∙◌, arith, Bool-cases, if-cases, Option-cases, Result-cases, inl, inr, ◌⊎◌, ap,
  leb, ◌-◌, ◌*◌, ◌/◌,
}
use usagebassoon.Usage.{Time}
use usagebassoon.Snapshot.Documents.{Control, Error, archive_busy}
use usagebassoon.Snapshot.Changes.{Change}
use usagebassoon.Snapshot.Reservations.{Owner, owns, renew, commit, lease}
use usagebassoon.Snapshot.Commits.{
  Action, renews, perform, Store, write_json_cas, settle, Moment, Pace, Fault, error_of, not_made,
  in_time, made_late, cas_attempts, written, update_reservation, check, expiry, mutate, Course,
}
use usagebassoon.Snapshot.Steps.{wrote, Reach, next}

module _ (x : Action) (xs : List Action) (store : Store) where
  settle-refused : perform x store.document ≡ none → settle (x ∷ xs) store ≡ settle xs store
  unfolding settle
  settle-refused e = rw (e, settle)

  settle-wrote :
      (document : Control)
      → perform x store.document ≡ some document
      → settle (x ∷ xs) store
        ≡ settle xs (record { document = document; version = suc store.version })
  unfolding settle
  settle-wrote document e = rw (e, settle)

Pace-cases :
    (p : Pace)
    → ((fault : Fault) × (p ≡ not_made fault))
      ⊎ ((p ≡ in_time) ⊎ ((fault : Fault) × (p ≡ made_late fault)))
Pace-cases (not_made fault) = inl (fault, refl)
Pace-cases in_time = inr (inl refl)
Pace-cases (made_late fault) = inr (inr (fault, refl))

settle-append :
    (xs ys : List Action) (store : Store) → settle (xs ++ ys) store ≡ settle ys (settle xs store)
unfolding settle
settle-append [] ys store = refl
settle-append (x ∷ xs) ys store = elim (Option-cases (perform x store.document)) [
  | inl refused ↦ rw (refused, settle) (settle-append xs ys store)
  | inr (document, e) ↦ rw (e, settle) (settle-append xs ys _)
]

settle-version-le : (xs : List Action) (store : Store) → store.version ≤ (settle xs store).version
unfolding settle
settle-version-le [] store = omega arith
settle-version-le (x ∷ xs) store = elim (Option-cases (perform x store.document)) [
  | inl refused ↦ rw (settle-refused x xs store refused) (settle-version-le xs store)
  | inr (document, e) ↦
      let next : Store = record { document = document; version = suc store.version } in
      rw (settle-wrote x xs store document e) (omega (arith, settle-version-le xs next))
]

-- The version is unchanged only if nothing was written.
settle-version_same :
    (xs : List Action) (store : Store)
    → (settle xs store).version ≡ store.version
    → settle xs store ≡ store
settle-version_same [] store h = unfold settle in refl
settle-version_same (x ∷ xs) store h = elim (Option-cases (perform x store.document)) [
  | inl refused ↦
      let same = settle-refused x xs store refused in
      same ∙ settle-version_same xs store (cc (same, h))
  | inr (document, e) ↦
      let next : Store = record { document = document; version = suc store.version } in
      absurd (
        omega (
          arith,
          settle-version-le xs next,
          ap (λ s. s.version) (settle-wrote x xs store document e),
        ))
]

-- The writes of other processes lengthen a history.
pub settle-Reach :
    {s : Control} (xs : List Action) (store : Store)
    → Reach s store.document
    → Reach s (settle xs store).document
settle-Reach [] store r = unfold settle in r
settle-Reach (x ∷ xs) store r = elim (Option-cases (perform x store.document)) [
  | inl refused ↦ rw (settle-refused x xs store refused) (settle-Reach xs store r)
  | inr (document, e) ↦ rw (settle-wrote x xs store document e) (
      settle-Reach xs (record { document = document; version = suc store.version })
        (next r (wrote x e)))
]

module _ {A : Type 0} (attempt : Time → A → Control → Result Error (A × Control)) where
  -- What a loop comes to: it raises, and all that was written is the history of the others; or it
  -- wrote its own document in one step after such a history, from the document that the history had
  -- come to, and returns, or raises a fault of that write.
  abbrev pub IsAtomic : Store → Store × Result Error A → Type 0
  IsAtomic store result =
      (history : List Action) × (((e : Error) × (result ≡ (settle history store, err e)))
        ⊎ ((now : Time) × (before : A) × (after : A) × (document : Control) × (attempt now before
                (settle history store).document
              ≡ ok (after, document))
            × (outcome : Result Error A) × ((outcome ≡ ok after)
                ⊎ ((fault : Fault) × (outcome ≡ err (error_of fault))))
            × (result ≡ (
              record { document = document; version = suc (settle history store).version },
              outcome,
            ))))

  earlier :
      (store : Store) {result : Store × Result Error A} (xs : List Action)
      → IsAtomic (settle xs store) result
      → IsAtomic store result
  earlier store xs (history, atomic) = (xs ++ history, rw (settle-append xs history store) atomic)

  -- A write under an unchanged version is one step from the document that was read.
  wrote-IsAtomic :
      (now : Time) (a after : A) (document : Control) (store current : Store)
      → attempt now a store.document ≡ ok (after, document)
      → (current.version == store.version) ≡ true
      → (outcome : Result Error A)
      → (outcome ≡ ok after) ⊎ ((fault : Fault) × (outcome ≡ err (error_of fault)))
      → IsAtomic store (record { document = document; version = suc current.version }, outcome)
  unfolding settle
  wrote-IsAtomic now a after document store current returned same outcome kind = (
    [],
    inr (
      now,
      a,
      after,
      document,
      returned,
      outcome,
      kind,
      ground (arith, nat_eq.beq_iff current.version store.version, same),
    ),
  )

  pub cas_attempts-IsAtomic :
      (left : ℕ) (moments : ℕ → Moment) (a : A) (store : Store)
      → IsAtomic store (cas_attempts attempt left moments a store)
  unfolding cas_attempts write_json_cas
  cas_attempts-IsAtomic zero moments a store = ([], inl (archive_busy, unfold settle in refl))
  cas_attempts-IsAtomic (suc left) moments a store =
      let moment = moments left in
      let current = settle moment.others store in
      elim (Result-cases (attempt moment.now a store.document)) [
        | inl (e, raised) ↦ ([], inl (e, unfold settle in rw (raised, cas_attempts)))
        | inr ((after, document), returned) ↦ elim (Bool-cases (current.version == store.version)) [
          | inl same ↦ elim (Pace-cases moment.pace) [
            | inl (fault, late) ↦
                rw (returned, late, cas_attempts) (moment.others, inl (error_of fault, refl))
            | inr (inl timely) ↦
                rw (returned, timely, same, cas_attempts)
                  (wrote-IsAtomic moment.now a after document store current returned same (ok after)
                    (inl refl))
            | inr (inr (fault, over)) ↦
                rw (returned, over, same, cas_attempts)
                  (wrote-IsAtomic moment.now a after document store current returned same
                    (err (error_of fault)) (inr (fault, refl)))
          ]
          | inr other ↦ elim (Pace-cases moment.pace) [
            | inl (fault, late) ↦
                rw (returned, late, cas_attempts) (moment.others, inl (error_of fault, refl))
            | inr (inl timely) ↦
                rw (returned, timely, other, cas_attempts)
                  (earlier store moment.others (cas_attempts-IsAtomic left moments after current))
            | inr (inr (fault, over)) ↦
                rw (returned, over, other, cas_attempts)
                  (earlier store moment.others (cas_attempts-IsAtomic left moments after current))
          ]
        ]
      ]

-- The write of one more action.
settle-snoc :
    (history : List Action) (x : Action) (store : Store) {document : Control}
    → perform x (settle history store).document ≡ some document
    → settle (history ++ x ∷ []) store
      ≡ record { document = document; version = suc (settle history store).version }
settle-snoc history x store {document} e =
    settle-append history (x ∷ []) store
    ∙ (settle-wrote x [] (settle history store) document e ∙ unfold settle in refl)

-- A renewal is a step of the history like any other.
renew-history :
    (left : ℕ) (moments : ℕ → Moment) (fresh : String) (by : Owner) (store : Store)
    → (history : List Action) × ((cas_attempts (λ now. renew now fresh) left moments by store).0
        ≡ settle history store)
renew-history left moments fresh by store =
    let (history, outcome) = cas_attempts-IsAtomic (λ now. renew now fresh) left moments by store in
    elim outcome [
      | inl (e, raised) ↦ (history, ap (λ r. r.0) raised)
      | inr (now, before, after, document, renewed, _, _, returned) ↦ (
        history ++ renews before now fresh ∷ [],
        ap (λ r. r.0) returned
            ∙ sym (
                settle-snoc history (renews before now fresh) store
                  (unfold perform written in rw (renewed, written) refl)),
      )
    ]

check-history :
    (now : Time) (moments : ℕ → Moment) (fresh : String) (by : Owner) (store : Store)
    → (history : List Action) × ((check now moments fresh by store).0 ≡ settle history store)
unfolding check update_reservation
check-history now moments fresh by store = if-cases FromHistory by.failed _ _ unchanged (
    if-cases FromHistory (owns by store.document now) _ _
      (if-cases FromHistory (leb (expiry store.document - now) (lease * 2 / 3)) _ _
        (renew-history 8 moments fresh by store) unchanged)
      unchanged)
  where
    FromHistory : Store × Result Error Owner → Type 0
    FromHistory r = (history : List Action) × (r.0 ≡ settle history store)

    unchanged : (history : List Action) × (store ≡ settle history store)
    unchanged = ([], unfold settle in refl)

pub mutate-IsAtomic :
    (course : Course) (by : Owner) (change : Change) (store : Store)
    → IsAtomic (commit by) store (mutate course by change store)
unfolding mutate
mutate-IsAtomic course by change store =
    let checked = check course.checked_at course.renewals course.fresh by store in
    let (history, e) = check-history course.checked_at course.renewals course.fresh by store in
    elim (Result-cases checked.1) [
      | inl (error, raised) ↦
          rw (raised, mutate) (history, inl (error, ap (λ (s : Store). (s, err error)) e))
      | inr (_, returned) ↦
          rw (returned, mutate, e)
            (earlier (commit by) store history (
              earlier (commit by) (settle history store) course.between (
                cas_attempts-IsAtomic (commit by) 8 course.attempts change
                  (settle course.between (settle history store)))))
    ]
