-- ===== src/Snapshot/Steps.antt =====
-- What every history of writes keeps of the control document.
use usagebassoon.Prelude.{
  ℕ, suc, ◌≤◌, ◌<◌, String, Bool, true, none, some, ◌==◌, nat_eq, string_eq, option_eq,
  option_beq_iff, ok, err, ◌≡◌, refl, arith, Bool-cases, Option-cases, inl, inr,
}
use usagebassoon.Usage.{Time}
use usagebassoon.Snapshot.Documents.{Control, archive_busy}
use usagebassoon.Snapshot.Changes.{
  Change, transition, forget, record_outcome, enforce_policy, replace_policy, mark_indexed,
  apply_change, commit_transition, forget_record, commit_policy, commit_indexed, commit_outcome,
}
use usagebassoon.Snapshot.Reservations.{Owner, holds, owns, reserve, claim, renew, commit, release}
use usagebassoon.Snapshot.Commits.{
  Action, claims, renews, commits, releases, perform, written, written-eq-some,
}

-- A reservation stands under the fence of its document, as `control` demands.
unfoldable pub is_fenced : Control → Bool
is_fenced document = elim document.reservation [ none ↦ true | some r ↦ r.fence == document.fence ]

-- What a change of the document leaves alone.
pub record KeepsAuthority (s t : Control) : Type 0 where
  pub fence : t.fence ≡ s.fence
  pub reservation : t.reservation ≡ s.reservation
  pub archive_id : t.archive_id ≡ s.archive_id

pub apply_change-KeepsAuthority :
    (change after : Change) (s t : Control)
    → apply_change change s ≡ ok (after, t)
    → KeepsAuthority s t
unfolding apply_change commit_transition forget_record commit_policy commit_indexed commit_outcome
apply_change-KeepsAuthority (transition identifier state) after s t e = ground arith
apply_change-KeepsAuthority (forget identifier state names) after s t e = ground arith
apply_change-KeepsAuthority (record_outcome identifier at error) after s t e = ground arith
apply_change-KeepsAuthority (enforce_policy m) after s t e = ground arith
apply_change-KeepsAuthority (replace_policy m) after s t e = ground arith
apply_change-KeepsAuthority (mark_indexed verified warnings) after s t e = ground arith

holds-fence :
    (by : Owner) (s : Control) → is_fenced s ≡ true → holds by s ≡ true → by.fence ≡ some s.fence
unfolding is_fenced holds
holds-fence by s sound held = elim (Option-cases s.reservation) [
  | inl e ↦ ground arith
  | inr (r, e) ↦
      ground (arith, option_beq_iff (some r.fence) by.fence, nat_eq.beq_iff r.fence s.fence)
]

-- A write of a change is made by the owner of a live reservation.
pub commit-eq-ok :
    (by : Owner) (now : Time) (change after : Change) (s t : Control)
    → commit by now change s ≡ ok (after, t)
    → (owns by s now ≡ true) × (apply_change change s ≡ ok (after, t))
unfolding commit
commit-eq-ok by now change after s t e = ground arith

pub perform-is_fenced :
    (action : Action) (s t : Control)
    → is_fenced s ≡ true
    → perform action s ≡ some t
    → (is_fenced t ≡ true) × (s.fence ≤ t.fence)
unfolding perform
perform-is_fenced (claims by now fresh) s t sound e =
    unfold claim reserve is_fenced written in
    ground (arith, nat_eq.beq_iff (suc s.fence) (suc s.fence))
perform-is_fenced (renews by now fresh) s t sound e =
    unfold renew reserve owns is_fenced written in
    ground (arith, holds-fence by s sound, nat_eq.beq_iff t.fence t.fence)
perform-is_fenced (commits by now change) s t sound e =
    let (after, r) = written-eq-some (commit by now change s) t e in
    let (owned, changed) = commit-eq-ok by now change after s t r in
    let kept = apply_change-KeepsAuthority change after s t changed in
    unfold is_fenced in ground (arith, kept.fence, kept.reservation, sound)
perform-is_fenced (releases by) s t sound e = unfold release is_fenced in ground arith

pub data Step (s t : Control) : Type 0 where
  wrote : (action : Action) → perform action s ≡ some t → Step s t

pub data Reach (s : Control) : Control → Type 0 where
  here : Reach s s
  next : {t u : Control} → Reach s t → Step t u → Reach s u

-- After any history of writes the reservation, if there is one, stands under the fence of its
-- document, and the fence has not fallen.
pub Reach-is_fenced :
    {s t : Control} → is_fenced s ≡ true → Reach s t → (is_fenced t ≡ true) × (s.fence ≤ t.fence)
Reach-is_fenced sound here = (sound, omega arith)
Reach-is_fenced {s} sound (next {t} {u} r (wrote action e)) =
    let before = Reach-is_fenced sound r in
    let after = perform-is_fenced action t u before.0 e in (after.0, omega arith)

-- An owner whose fence is below the document's never writes again: whatever other processes write
-- after that, each of its commits and renewals is refused as busy.
pub stale-busy :
    {s t : Control} (by : Owner) (fence : ℕ) (now : Time) (change : Change) (fresh : String)
    → is_fenced s ≡ true
    → by.fence ≡ some fence
    → fence < s.fence
    → Reach s t
    → (commit by now change t ≡ err archive_busy) × (renew now fresh by t ≡ err archive_busy)
unfolding commit renew owns
stale-busy {t} by fence now change fresh sound held older r =
    let after = Reach-is_fenced sound r in
    elim (Bool-cases (holds by t)) [
      | inl yet ↦ absurd (ground (arith, holds-fence by t after.0 yet))
      | inr lost ↦ rw (lost, commit, renew) (refl, refl)
    ]
