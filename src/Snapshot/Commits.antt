-- ===== src/Snapshot/Commits.antt =====
-- The compare-and-swap loops of src/usagebassoon/snapshot/catalog.py over a control document that
-- other processes write too.
use usagebassoon.Prelude.{
  ℕ, zero, suc, ◌-◌, ◌*◌, ◌/◌, String, Bool, true, false, Option, none, some, List, [], ◌∷◌, ◌==◌,
  nat_eq, leb, if◌then◌else◌, Result, ok, err, ◌≡◌, arith,
}
use usagebassoon.Usage.{Time}
use usagebassoon.Snapshot.Documents.{Control, Error, archive_busy, operation_timeout, bucket_error}
use usagebassoon.Snapshot.Changes.{Change}
use usagebassoon.Snapshot.Reservations.{Owner, owns, claim, renew, commit, release, lease}

-- A write of the control document by some process: the operation, its owner and its time.
pub data Action : Type 0 where
  claims : Owner → Time → String → Action
  renews : Owner → Time → String → Action
  commits : Owner → Time → Change → Action
  releases : Owner → Action

-- The document that an attempt writes, if it comes to write one.
unfoldable pub written : {A : Type 0} → Result Error (A × Control) → Option Control
written (err e) = none
written (ok (a, document)) = some document

pub written-eq-some :
    {A : Type 0} (r : Result Error (A × Control)) (t : Control)
    → written r ≡ some t
    → (a : A) × (r ≡ ok (a, t))
unfolding written
written-eq-some (err e) t h = cc
written-eq-some (ok (a, document)) t h = (a, ground arith)

unfoldable pub perform : Action → Control → Option Control
perform (claims by now fresh) document = written (claim now fresh by document)
perform (renews by now fresh) document = written (renew now fresh by document)
perform (commits by now change) document = written (commit by now change document)
perform (releases by) document = release by document

-- The stored document. The bucket's version counts the writes: 0 where there is no document yet.
pub record Store : Type 0 where
  pub document : Control
  pub version : ℕ

-- `write_json_cas`; `none` is the `SnapshotPreconditionError` of a version that is not the expected.
unfoldable pub write_json_cas : Control → ℕ → Store → Option Store
write_json_cas document expected store =
    if store.version == expected
    then some (record { document = document; version = suc store.version })
    else none

-- The writes of other processes, one after the other.
unfoldable pub settle : List Action → Store → Store
settle [] store = store
settle (action ∷ actions) store = elim (perform action store.document) [
  | none ↦ settle actions store
  | some document ↦ settle actions (record { document = document; version = suc store.version })
]

-- What a write may raise but the `SnapshotPreconditionError`: its time is over, by `with limited(...)`
-- around it, or the bucket fails.
pub data Fault : Type 0 where
  overdue : Fault
  bucket_failed : Fault

unfoldable pub error_of : Fault → Error
error_of overdue = operation_timeout
error_of bucket_failed = bucket_error

-- How a write goes: it raises and was not made; it returns; or it was made and raises, as `limited` asks
-- for the time that is left once more at its end, or as the bucket's answer is lost.
pub data Pace : Type 0 where
  not_made : Fault → Pace
  in_time : Pace
  made_late : Fault → Pace

-- What one attempt meets: the clock, the actions of other processes between its read and its write, and
-- how the write's time goes.
pub record Moment : Type 0 where
  pub now : Time
  pub others : List Action
  pub pace : Pace

-- The loop that the source writes out as `for _ in range(8)`: an attempt at the document that is
-- read, then the write under its version. `moments` is indexed by the attempts that are left.
unfoldable pub cas_attempts {ℓ} :
    {A : Type ℓ}
    → (Time → A → Control → Result Error (A × Control))
    → ℕ
    → (ℕ → Moment)
    → A
    → Store
    → Store × Result Error A
unfolding write_json_cas
cas_attempts attempt zero moments a store = (store, err archive_busy)
cas_attempts attempt (suc left) moments a store =
    let moment = moments left in
    elim (attempt moment.now a store.document) [
      | err e ↦ (store, err e)
      | ok (after, document) ↦
          let current = settle moment.others store in
          let rest = cas_attempts attempt left moments after current in
          elim moment.pace [
            | not_made fault ↦ (current, err (error_of fault))
            | in_time ↦ elim (write_json_cas document store.version current) [
              | some written ↦ (written, ok after)
              | none ↦ rest
            ]
            | made_late fault ↦ elim (write_json_cas document store.version current) [
              | some written ↦ (written, err (error_of fault))
              | none ↦ rest
            ]
          ]
    ]

-- `_update_reservation`: eight attempts to claim the reservation, or to renew it.
unfoldable pub update_reservation :
    Bool → String → (ℕ → Moment) → Owner → Store → Store × Result Error Owner
unfolding cas_attempts
update_reservation true fresh = cas_attempts (λ now. claim now fresh) 8
update_reservation false fresh = cas_attempts (λ now. renew now fresh) 8

pub expiry : Control → Time
expiry document = elim document.reservation [ none ↦ 0 | some r ↦ r.expires_at ]

-- `check`: a reservation with two thirds of its lease left is renewed first.
unfoldable pub check : Time → (ℕ → Moment) → String → Owner → Store → Store × Result Error Owner
unfolding owns expiry update_reservation
check now moments fresh by store =
    let renewed = update_reservation false fresh moments by store in
    if by.failed
    then (store, err archive_busy)
    else if owns by store.document now
    then if leb (expiry store.document - now) (lease * 2 / 3) then renewed else (store, ok by)
    else (store, err archive_busy)

-- What a call of `mutate` meets: its `check`, the actions of other processes after it, the attempts.
pub record Course : Type 0 where
  pub checked_at : Time
  pub renewals : ℕ → Moment
  pub fresh : String
  pub between : List Action
  pub attempts : ℕ → Moment

-- `mutate`
unfoldable pub mutate : Course → Owner → Change → Store → Store × Result Error Change
unfolding check cas_attempts
mutate course by change store =
    let checked = check course.checked_at course.renewals course.fresh by store in
    elim checked.1 [
      | err e ↦ (checked.0, err e)
      | ok _ ↦ cas_attempts (commit by) 8 course.attempts change (settle course.between checked.0)
    ]
