-- ===== src/Snapshot/Ownership.antt =====
-- Who owns the archive of src/usagebassoon/snapshot/catalog.py after a claim.
use usagebassoon.Prelude.{
  ℕ, suc, ◌≤◌, String, true, some, nat_eq, Result, ok, err, ◌≡◌, sym, ◌∙◌, arith, inl, inr, ap,
}
use usagebassoon.Usage.{Time}
use usagebassoon.Snapshot.Documents.{Control, Error, archive_busy}
use usagebassoon.Snapshot.Changes.{Change}
use usagebassoon.Snapshot.Reservations.{Owner, reserve, claim, renew, commit}
use usagebassoon.Snapshot.Commits.{Store, settle, Moment, update_reservation}
use usagebassoon.Snapshot.Steps.{Reach, here, is_fenced, Reach-is_fenced, stale-busy}
use usagebassoon.Snapshot.Histories.{cas_attempts-IsAtomic, settle-Reach}

claim-fence :
    (now : Time) (fresh : String) (by after : Owner) (s t : Control)
    → claim now fresh by s ≡ ok (after, t)
    → (is_fenced t ≡ true) × (t.fence ≡ suc s.fence) × (after.fence ≡ some t.fence)
unfolding claim is_fenced reserve
claim-fence now fresh by after s t e = ground (arith, nat_eq.beq_iff (suc s.fence) (suc s.fence))

pub claim-shuts_out :
    (moments : ℕ → Moment) (fresh : String) (by after old : Owner) (store claimed : Store)
    (fence : ℕ) {later : Control} (now : Time) (change : Change)
    → is_fenced store.document ≡ true
    → old.fence ≡ some fence
    → fence ≤ store.document.fence
    → update_reservation true fresh moments by store ≡ (claimed, ok after)
    → Reach claimed.document later
    → (commit old now change later ≡ err archive_busy)
      × (renew now fresh old later ≡ err archive_busy)
unfolding update_reservation
claim-shuts_out moments fresh by after old store claimed fence now change sound held older e r =
    let (history, outcome) = cas_attempts-IsAtomic (λ t. claim t fresh) 8 moments by store in
    elim outcome [
      | inl (error, raised) ↦ absurd (cc (raised, e))
      | inr (at, before, new, document, given, outcome, kind, returned) ↦
          let grown = Reach-is_fenced sound (settle-Reach history store here) in
          let fenced =
            claim-fence at fresh before new (settle history store).document document given in
          let same : claimed.document ≡ document =
            ap (λ (p : Store × Result Error Owner). p.0.document) (sym e ∙ returned) in
          stale-busy old fence now change fresh (rw same (fenced.0)) held
            (rw same (omega (arith, older, grown.1, fenced.1))) r
    ]
