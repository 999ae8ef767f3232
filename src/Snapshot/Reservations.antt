-- ===== src/Snapshot/Reservations.antt =====
-- The fenced reservation of an archive: `_update_reservation`, `mutate` and `hold` of
-- src/usagebassoon/snapshot/catalog.py, each as one attempt at the control document. The clock and
-- the identity that `uuid4` gives a new archive are arguments.
use usagebassoon.Prelude.{
  ℕ, suc, ◌+◌, String, Bool, false, Option, none, some, ◌&&◌, ◌==◌, nat_eq, string_eq, option_eq,
  ltb, or_else, if◌then◌else◌, Result, ok, err,
}
use usagebassoon.Usage.{Time}
use usagebassoon.Snapshot.Documents.{Control, Error, archive_busy}
use usagebassoon.Snapshot.Changes.{Change, apply_change}

-- `LEASE_SECONDS`, in microseconds.
abbrev pub lease : Time
lease = 300000000

-- A catalog's own side of a reservation: its owner, its fence, and whether a renewal has failed.
pub record Owner : Type 0 where
  pub owner : String
  pub fence : Option ℕ
  pub failed : Bool

-- The reservation is this owner's, whatever the time.
unfoldable pub holds : Owner → Control → Bool
holds by document = elim document.reservation [
  | none ↦ false
  | some r ↦ (r.owner == by.owner) && (some r.fence == by.fence)
]

is_live : Control → Time → Bool
is_live document now = elim document.reservation [ none ↦ false | some r ↦ ltb now r.expires_at ]

-- The reservation is this owner's and has not expired.
unfoldable pub owns : Owner → Control → Time → Bool
unfolding holds is_live
owns by document now = holds by document && is_live document now

-- The document that a claim or a renewal writes.
unfoldable pub reserve : Owner → ℕ → Time → String → Control → Control
reserve by fence now fresh document = record document {
  fence = fence;
  archive_id = some (or_else document.archive_id fresh);
  reservation = some (record { owner = by.owner; fence = fence; expires_at = now + lease });
}

-- One attempt of `_update_reservation(claim=True)`.
unfoldable pub claim : Time → String → Owner → Control → Result Error (Owner × Control)
unfolding reserve is_live
claim now fresh by document =
    if is_live document now
    then err archive_busy
    else let fence = suc document.fence in
      ok (record by { fence = some fence }, reserve by fence now fresh document)

-- One attempt of `_update_reservation()`.
unfoldable pub renew : Time → String → Owner → Control → Result Error (Owner × Control)
unfolding reserve owns
renew now fresh by document =
    if owns by document now
    then elim by.fence [
      | none ↦ err archive_busy
      | some fence ↦ ok (by, reserve by fence now fresh document)
    ]
    else err archive_busy

-- One attempt of `mutate`.
unfoldable pub commit : Owner → Time → Change → Control → Result Error (Change × Control)
unfolding owns
commit by now change document =
    if owns by document now then apply_change change document else err archive_busy

-- One attempt of the release at the end of `hold`; `none` means that there is nothing to release.
unfoldable pub release : Owner → Control → Option Control
unfolding holds
release by document =
    if holds by document then some (record document { reservation = none }) else none
