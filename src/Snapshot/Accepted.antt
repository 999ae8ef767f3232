-- ===== src/Snapshot/Accepted.antt =====
-- The checks that `control` of src/usagebassoon/snapshot/catalog.py makes of a control document, on
-- the keys that `Documents` keeps with their types.
use usagebassoon.Prelude.{
  ℕ, String, Bool, true, not, ◌&&◌, Option, none, some, List, [], ◌∷◌, ◌==◌, string_eq, nat_eq, leb,
  all, Dict, insert, remove, ok, ◌≡◌, refl, arith, Bool-cases, inl, inr,
}
use usagebassoon.Snapshot.Documents.{Lifecycle, Policy, Reservation, Control, records_of}
use usagebassoon.Snapshot.Changes.{
  Change, transition, forget, record_outcome, enforce_policy, replace_policy, mark_indexed,
  apply_change, commit_transition, forget_record, commit_policy, commit_indexed, commit_outcome,
  mark_records, valid_roles,
}
use usagebassoon.Snapshot.Lifecycles.{is_snapshot_id}
use usagebassoon.Snapshot.Reservations.{Owner, claim, renew, reserve, commit, release}
use usagebassoon.Snapshot.Commits.{
  Action, claims, renews, commits, releases, perform, written, written-eq-some,
}
use usagebassoon.Snapshot.Steps.{
  is_fenced, perform-is_fenced, commit-eq-ok, apply_change-KeepsAuthority,
}
use usagebassoon.Snapshot.Records.{
  transition-records, written_state, forget-records, indexed-records, record_of,
}

-- A text that has to be non-empty where it is there.
abbrev named : Option String → Bool
named none = true
named (some s) = not (s == "")

owner_named : Option Reservation → Bool
owner_named none = true
owner_named (some r) = not (r.owner == "")

policy_accepted : Option Policy → Bool
policy_accepted none = true
policy_accepted (some p) = leb 1 p.max_snapshots && (p.weekly_slots == 4)

abbrev record_accepted : String × Lifecycle → Bool
record_accepted (identifier, state) = is_snapshot_id identifier && valid_roles state

-- Whether `control` returns the document.
unfoldable pub control_accepts : Control → Bool
unfolding is_fenced owner_named policy_accepted
control_accepts document =
    named document.archive_id
    && (is_fenced document && owner_named document.reservation)
    && policy_accepted document.policy
    && all record_accepted (records_of document)

-- An action with what its caller supplies: an owner and an archive identity from `uuid4`, a policy
-- of at least one snapshot, and a state that `transition` let through.
unfoldable pub is_proper : Action → Bool
is_proper (claims by now fresh) = not (by.owner == "") && not (fresh == "")
is_proper (renews by now fresh) = not (by.owner == "") && not (fresh == "")
is_proper (commits by now change) = elim change [
  | transition identifier state ↦ record_accepted (identifier, state)
  | enforce_policy max_snapshots ↦ leb 1 max_snapshots
  | replace_policy max_snapshots ↦ leb 1 max_snapshots
  | _ ↦ true
]
is_proper (releases by) = true

module _ (p : String × Lifecycle → Bool) where
  all-insert :
      (k : String) (v : Lifecycle) (d : Dict String Lifecycle)
      → p (k, v) ≡ true
      → all p d ≡ true
      → all p (insert k v d) ≡ true
  unfolding insert
  all-insert k v [] h hs = ground arith
  all-insert k v ((j, w) ∷ d) h hs = elim (Bool-cases (j == k)) [
    | inl same ↦ rw (same, (string_eq.beq_iff j k).0 same) (ground (arith, h, hs))
    | inr other ↦ rw other (ground (arith, hs, all-insert k v d h))
  ]

  all-remove : (k : String) (d : Dict String Lifecycle) → all p d ≡ true → all p (remove k d) ≡ true
  unfolding remove
  all-remove k [] hs = refl
  all-remove k ((j, w) ∷ d) hs = ground (arith, all-remove k d)

all-mark_records :
    (verified : List String) (d : Dict String Lifecycle)
    → all record_accepted d ≡ true
    → all record_accepted (mark_records verified d) ≡ true
unfolding mark_records valid_roles
all-mark_records verified [] hs = refl
all-mark_records verified ((j, w) ∷ d) hs = ground (arith, all-mark_records verified d)

-- The two parts of the document that a change may write.
abbrev contents_accepted : Control → Bool
contents_accepted document =
    policy_accepted document.policy && all record_accepted (records_of document)

transition-accepted :
    (identifier : String) (state : Lifecycle) (after : Change) (s t : Control)
    → record_accepted (identifier, state) ≡ true
    → all record_accepted (records_of s) ≡ true
    → commit_transition identifier state s ≡ ok (after, t)
    → all record_accepted (records_of t) ≡ true
unfolding written_state valid_roles
transition-accepted identifier state after s t proper sound e =
    rw (transition-records identifier state after s t e).0 (
      all-insert record_accepted identifier (written_state (record_of identifier s) state s)
        (records_of s) proper sound)

apply_change-accepted :
    (by : Owner) (now : ℕ) (change after : Change) (s t : Control)
    → is_proper (commits by now change) ≡ true
    → contents_accepted s ≡ true
    → apply_change change s ≡ ok (after, t)
    → contents_accepted t ≡ true
unfolding is_proper apply_change policy_accepted
apply_change-accepted by now (transition identifier state) after s t proper sound e =
    let same : t.policy ≡ s.policy = unfold commit_transition in ground arith in
    rw same (ground (arith, sound, transition-accepted identifier state after s t proper))
apply_change-accepted by now (forget identifier state names) after s t proper sound e =
    let same : t.policy ≡ s.policy = unfold forget_record in ground arith in
    rw (same, forget-records identifier state names after s t e)
      (ground (arith, sound, all-remove record_accepted identifier (records_of s)))
apply_change-accepted by now (record_outcome identifier at error) after s t proper sound e =
    unfold commit_outcome in ground (arith, sound, e)
apply_change-accepted by now (enforce_policy m) after s t proper sound e =
    unfold commit_policy in ground (arith, sound, e, proper)
apply_change-accepted by now (replace_policy m) after s t proper sound e =
    ground (arith, sound, e, proper)
apply_change-accepted by now (mark_indexed verified warnings) after s t proper sound e =
    let written : commit_indexed verified warnings s ≡ t = ground arith in
    let same : t.policy ≡ s.policy = unfold commit_indexed in ground arith in
    let marked : records_of t ≡ mark_records verified (records_of s) =
      rw (← written, indexed-records verified warnings s) refl in
    rw (same, marked) (ground (arith, sound, all-mark_records verified (records_of s)))

-- Every write keeps the control document one that `control` accepts: whatever an action of a proper
-- caller writes over an accepted document passes each check of the next read.
pub perform-accepted :
    (action : Action) (s t : Control)
    → is_proper action ≡ true
    → control_accepts s ≡ true
    → perform action s ≡ some t
    → control_accepts t ≡ true
unfolding control_accepts
perform-accepted (claims by now fresh) s t proper sound e =
    let fenced = perform-is_fenced (claims by now fresh) s t (ground (arith, sound)) e in
    unfold perform claim reserve written is_proper owner_named in
    ground (arith, sound, proper, e, fenced.0)
perform-accepted (renews by now fresh) s t proper sound e =
    let fenced = perform-is_fenced (renews by now fresh) s t (ground (arith, sound)) e in
    unfold perform renew reserve written is_proper owner_named in
    ground (arith, sound, proper, e, fenced.0)
perform-accepted (commits by now change) s t proper sound e =
    let fenced = perform-is_fenced (commits by now change) s t (ground (arith, sound)) e in
    let (after, r) = written-eq-some (commit by now change s) t (unfold perform in e) in
    let changed = (commit-eq-ok by now change after s t r).1 in
    let kept = apply_change-KeepsAuthority change after s t changed in
    let contents =
      apply_change-accepted by now change after s t proper (ground (arith, sound)) changed in
    rw (kept.archive_id, kept.reservation) (ground (arith, sound, fenced.0, contents))
perform-accepted (releases by) s t proper sound e =
    let fenced = perform-is_fenced (releases by) s t (ground (arith, sound)) e in
    unfold perform release owner_named in ground (arith, sound, e, fenced.0)
