-- ===== src/Snapshot/Records.antt =====
-- How a lifecycle record of src/usagebassoon/snapshot/catalog.py moves from write to write.
use mathlib.Core.Path.{subst}
use usagebassoon.Prelude.{
  ℕ, ◌+◌, ◌≤◌, String, true, not, ◌||◌, Option, none, some, List, [], ◌∷◌, ◌==◌, string_eq, ok, ◌≡◌,
  ◌∙◌, ap, arith, Bool-cases, if-cases, Option-cases, inl, inr, ◌⊎◌, Dict, lookup, insert, remove,
  lookup-insert, lookup-remove,
}
use usagebassoon.Snapshot.Documents.{Field, absent, held, malformed, Lifecycle, Control, records_of}
use usagebassoon.Snapshot.Changes.{
  Change, transition, forget, record_outcome, enforce_policy, replace_policy, mark_indexed,
  apply_change, commit_transition, forget_record, commit_policy, commit_indexed, commit_outcome,
  was_retired, next_revision, revision_of, mark_records, is_true,
}
use usagebassoon.Snapshot.Reservations.{claim, renew, reserve, commit, release}
use usagebassoon.Snapshot.Commits.{
  Action, claims, renews, commits, releases, perform, written, written-eq-some,
}
use usagebassoon.Snapshot.Steps.{wrote, Reach, here, next, commit-eq-ok}

abbrev pub record_of : String → Control → Option Lifecycle
record_of identifier document = lookup identifier (records_of document)

-- The revision that a record stands at.
abbrev rank : Field ℕ → ℕ
rank absent = 0
rank (held revision) = revision
rank malformed = 0

-- A record has moved on: its revision has not fallen, and it is retired if it was.
pub record IsLater (old new : Lifecycle) : Type 0 where
  pub revision : rank old.revision ≤ rank new.revision
  pub retired : (not (is_true old.retired) || is_true new.retired) ≡ true

IsLater-refl : (old : Lifecycle) → IsLater old old
IsLater-refl old = record { revision = omega arith; retired = ground arith }

IsLater-trans : {a b c : Lifecycle} → IsLater a b → IsLater b c → IsLater a c
IsLater-trans h g = record { revision = omega arith; retired = ground arith }

-- What has become of a record: it is gone, or it is there and has moved on.
abbrev Moved : Lifecycle → Option Lifecycle → Type 0
Moved old none = Unit
Moved old (some new) = IsLater old new

-- What a transition writes.
unfoldable pub written_state : Option Lifecycle → Lifecycle → Control → Lifecycle
unfolding revision_of
written_state previous state s = record state {
  revision = held (rank (revision_of previous state) + 1);
  archive_id = s.archive_id;
}

pub transition-records :
    (identifier : String) (state : Lifecycle) (after : Change) (s t : Control)
    → commit_transition identifier state s ≡ ok (after, t)
    → let previous = record_of identifier s in
      (records_of t ≡ insert identifier (written_state previous state s) (records_of s))
      × ((not (was_retired previous) || is_true state.retired) ≡ true)
unfolding commit_transition next_revision written_state
transition-records identifier state after s t e = ground arith

transition-Moved :
    (identifier name : String) (state old : Lifecycle) (after : Change) (s t : Control)
    → commit_transition identifier state s ≡ ok (after, t)
    → record_of name s ≡ some old
    → Moved old (record_of name t)
unfolding was_retired written_state revision_of
transition-Moved identifier name state old after s t e there =
    let (e', kept) = transition-records identifier state after s t e in
    let new = written_state (record_of identifier s) state s in
    rw (e', lookup-insert identifier name new (records_of s))
      (elim (Bool-cases (identifier == name)) [
        | inl same ↦
            let previous : record_of identifier s ≡ some old =
              ap (λ k. record_of k s) ((string_eq.beq_iff identifier name).0 same) ∙ there in
            rw same (
              rw previous
                (record { revision = omega arith; retired = ground (arith, previous, kept) }))
        | inr other ↦ rw (other, there) (IsLater-refl old)
      ])

remove-Moved :
    (identifier name : String) (old : Lifecycle) (records : Dict String Lifecycle)
    → lookup name records ≡ some old
    → Moved old (lookup name (remove identifier records))
remove-Moved identifier name old records there =
    rw (lookup-remove identifier name records) (elim (Bool-cases (identifier == name)) [
      | inl same ↦ rw same tt
      | inr other ↦ rw (other, there) (IsLater-refl old)
    ])

mark_records-Moved :
    (verified : List String) (name : String) (old : Lifecycle) (records : Dict String Lifecycle)
    → lookup name records ≡ some old
    → Moved old (lookup name (mark_records verified records))
unfolding lookup mark_records
mark_records-Moved verified name old [] there = tt
mark_records-Moved verified name old ((k, state) ∷ records) there = elim (Bool-cases (k == name)) [
  | inl same ↦
      let e : state ≡ old = ground (arith, there, same) in
      rw (same, e)
        (if-cases (IsLater old) (is_true old.published) _ _
          (record { revision = omega arith; retired = ground arith }) (IsLater-refl old))
  | inr other ↦
      rw other (mark_records-Moved verified name old records (ground (arith, there, other)))
]

pub forget-records :
    (identifier : String) (state : Lifecycle) (names : List String) (after : Change) (s t : Control)
    → forget_record identifier state names s ≡ ok (after, t)
    → records_of t ≡ remove identifier (records_of s)
unfolding forget_record
forget-records identifier state names after s t e = ground arith

pub indexed-records :
    (verified warnings : List String) (s : Control)
    → records_of (commit_indexed verified warnings s) ≡ mark_records verified (records_of s)
unfolding commit_indexed mark_records
indexed-records verified warnings s = ground arith

apply_change-Moved :
    (change after : Change) (s t : Control) (name : String) (old : Lifecycle)
    → apply_change change s ≡ ok (after, t)
    → record_of name s ≡ some old
    → Moved old (record_of name t)
unfolding apply_change commit_policy commit_indexed commit_outcome
apply_change-Moved (transition identifier state) after s t name old e there =
    transition-Moved identifier name state old after s t e there
apply_change-Moved (forget identifier state names) after s t name old e there =
    rw (forget-records identifier state names after s t e)
      (remove-Moved identifier name old (records_of s) there)
apply_change-Moved (record_outcome identifier at error) after s t name old e there =
    let same : record_of name t ≡ some old = ground arith in rw same (IsLater-refl old)
apply_change-Moved (enforce_policy m) after s t name old e there =
    let same : record_of name t ≡ some old = ground arith in rw same (IsLater-refl old)
apply_change-Moved (replace_policy m) after s t name old e there =
    let same : record_of name t ≡ some old = ground arith in rw same (IsLater-refl old)
apply_change-Moved (mark_indexed verified warnings) after s t name old e there =
    let same : commit_indexed verified warnings s ≡ t = ground arith in
    rw (← same, indexed-records verified warnings s)
      (mark_records-Moved verified name old (records_of s) there)

perform-Moved :
    (action : Action) (s t : Control) (name : String) (old : Lifecycle)
    → perform action s ≡ some t
    → record_of name s ≡ some old
    → Moved old (record_of name t)
unfolding perform
perform-Moved (claims by now fresh) s t name old e there =
    let same : record_of name t ≡ some old = unfold claim reserve written in ground arith in
    rw same (IsLater-refl old)
perform-Moved (renews by now fresh) s t name old e there =
    let same : record_of name t ≡ some old = unfold renew reserve written in ground arith in
    rw same (IsLater-refl old)
perform-Moved (commits by now change) s t name old e there =
    let (after, r) = written-eq-some (commit by now change s) t e in
    apply_change-Moved change after s t name old (commit-eq-ok by now change after s t r).1 there
perform-Moved (releases by) s t name old e there =
    let same : record_of name t ≡ some old = unfold release in ground arith in
    rw same (IsLater-refl old)

pub Reach-Moved :
    {s t : Control} (name : String) (old : Lifecycle)
    → record_of name s ≡ some old
    → Reach s t
    → ((u : Control) × Reach s u × (record_of name u ≡ none))
      ⊎ ((new : Lifecycle) × (record_of name t ≡ some new) × IsLater old new)
Reach-Moved name old there here = inr (old, there, IsLater-refl old)
Reach-Moved name old there (next {t} {u} r (wrote action e)) = elim (Reach-Moved name old there r) [
  | inl gone ↦ inl gone
  | inr (new, is, later) ↦
      let moved = perform-Moved action t u name new e is in
      elim (Option-cases (record_of name u)) [
        | inl gone ↦ inl (u, next r (wrote action e), gone)
        | inr (newer, now) ↦ inr (newer, now, IsLater-trans later (subst (Moved new) now moved))
      ]
]
