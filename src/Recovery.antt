-- ===== src/Recovery.antt =====
-- The choice of a snapshot to restore: `candidates` and `prepare` of
-- src/usagebassoon/snapshot/reader.py. What archives, catalogs and downloads answer are arguments.
mod Newest
mod Tests
pub mod Transformations
use usagebassoon.Prelude.{
  ℕ, String, Bool, true, false, Option, none, some, List, [], ◌∷◌, ◌++◌, ◌&&◌, ◌||◌, not, is_empty,
  string_eq, nat_eq, nat_ord, string_ord, pair_eq, pair_ord, pair_at_most, sort_by, map,
  if◌then◌else◌, Result, ok, err, ◌>>=◌,
}
use usagebassoon.Usage.{Time}
use usagebassoon.Snapshot.Documents.{Lifecycle}
use usagebassoon.Snapshot.Changes.{is_true, is_false}
use usagebassoon.Snapshot.Lifecycles.{is_snapshot_id}
use usagebassoon.Snapshot.Rotation.{Entry}

-- What is asked for: the latest, a path with its parent and its last part, or an identifier.
pub data Selection : Type 0 where
  latest : Selection
  at_path : String → String → String → Selection
  with_id : String → Selection

-- The answers of an archive: whether it lists the manifest of a name, the capture time of a verified
-- manifest, and what `entries` or, for a recovery, `discover` returns.
pub record Archive : Type 0 where
  pub uri : String
  pub lists_manifest : String → Result String Bool
  pub manifest_time : String → Result String Time
  pub listing : Bool → Result String (List Entry)

pub record Candidate : Type 0 where
  pub bucket : String
  pub identifier : String
  pub captured_at : Time

pub data Notice : Type 0 where
  undiscovered : String → String → Notice
  unopened : String → String → Notice
  unreserved : Candidate → String → Notice
  inactive : Candidate → Notice
  damaged : Candidate → String → Notice
  unreleased : Candidate → String → Notice
  unreadable_copy : Candidate → String → Notice

pub data Error : Type 0 where
  invalid_id : Error
  unresolved : String → Error
  cannot_open : String → String → Error
  cannot_discover : String → String → Error
  nothing_found : List Notice → Error
  insufficient_space : Error
  cannot_read : Candidate → String → Error
  not_removed : String → Error
  nothing_usable : List Notice → Error

-- Archives in turn, and what was noticed on the way. A failure ends a selection that is not automatic.
open_all :
    Bool
    → List (String × Result String Archive)
    → List Notice
    → Result Error (List Archive × List Notice)
open_all automatic [] notices = ok ([], notices)
open_all automatic ((uri, ok archive) ∷ locations) notices =
    open_all automatic locations notices >>= λ rest. ok (archive ∷ rest.0, rest.1)
open_all automatic ((uri, err e) ∷ locations) notices =
    let rest = open_all automatic locations (notices ++ unopened uri e ∷ []) in
    if not automatic then err (cannot_open uri e) else rest

-- The one entry of an archive for an exact identifier.
exact_entries : Archive → String → Result String (List Entry)
exact_entries archive identifier = archive.lists_manifest identifier >>= λ found.
    if not found
    then ok []
    else archive.manifest_time identifier >>= λ captured.
        ok (record { snapshot_id = identifier; captured_at = captured } ∷ [])

entries_of : Bool → Option String → Archive → Result String (List Entry)
unfolding exact_entries
entries_of recovery (some identifier) archive = exact_entries archive identifier
entries_of recovery none archive = archive.listing recovery

copies : String → List Entry → List Candidate
copies uri [] = []
copies uri (entry ∷ entries) =
    record { bucket = uri; identifier = entry.snapshot_id; captured_at = entry.captured_at }
    ∷ copies uri entries

discover_all :
    Bool
    → Bool
    → Option String
    → List Archive
    → List Notice
    → Result Error (List Candidate × List Notice)
unfolding entries_of copies
discover_all automatic recovery exact [] notices = ok ([], notices)
discover_all automatic recovery exact (archive ∷ archives) notices =
    elim (entries_of recovery exact archive) [
      | ok entries ↦ discover_all automatic recovery exact archives notices >>= λ rest.
          ok (copies archive.uri entries ++ rest.0, rest.1)
      | err e ↦
          let rest =
            discover_all automatic recovery exact archives
              (notices ++ undiscovered archive.uri e ∷ []) in
          if not automatic then err (cannot_discover archive.uri e) else rest
    ]

-- `_candidate_order`, as `<=`.
order : Candidate → Candidate → Bool
order a b =
    pair_at_most {A = Time} {B = String × String} (a.captured_at, (a.identifier, a.bucket))
      (b.captured_at, (b.identifier, b.bucket))

-- `candidates.sort(key=_candidate_order, reverse=True)`
pub newest_first : List Candidate → List Candidate
unfolding order
newest_first = sort_by (λ a b. order b a)

-- The archives that a selection names, the exact identifier, and whether the choice is automatic.
pub record Scope : Type 0 where
  pub archives : List Archive
  pub exact : Option String
  pub automatic : Bool
  pub noticed : List Notice

resolved : (String → Result String Archive) → String → Result Error Archive
resolved resolve uri = elim (resolve uri) [ ok archive ↦ ok archive | err e ↦ err (unresolved e) ]

one_archive : Archive → Option String → Bool → Scope
one_archive archive exact automatic = record {
  archives = archive ∷ [];
  exact = exact;
  automatic = automatic;
  noticed = [];
}

configured : List (String × Result String Archive) → Option String → Bool → Result Error Scope
unfolding open_all
configured locations exact automatic = open_all automatic locations [] >>= λ opened.
    ok (record { archives = opened.0; exact = exact; automatic = automatic; noticed = opened.1 })

-- `lists_manifest ""` asks for a manifest in the archive's own directory.
scope_of :
    (String → Result String Archive)
    → List (String × Result String Archive)
    → Selection
    → Result Error Scope
unfolding configured resolved one_archive
scope_of resolve locations latest = configured locations none true
scope_of resolve locations (with_id identifier) =
    if is_snapshot_id identifier
    then configured locations (some identifier) false
    else err invalid_id
scope_of resolve locations (at_path location parent leaf) = resolved resolve location >>= λ archive.
    elim (archive.lists_manifest "") [
      | err e ↦ err (unresolved e)
      | ok false ↦ ok (one_archive archive none true)
      | ok true ↦
          if is_snapshot_id leaf
          then (resolved resolve parent >>= λ above. ok (one_archive above (some leaf) false))
          else err invalid_id
    ]

-- `candidates`: the copies newest first, whether the choice is automatic, and what was noticed.
pub candidates :
    (String → Result String Archive)
    → List (String × Result String Archive)
    → Selection
    → Bool
    → Bool
    → Result Error (List Candidate × Bool × List Notice)
unfolding scope_of discover_all newest_first
candidates resolve locations selection allow_empty recovery =
    scope_of resolve locations selection >>= λ scope.
    discover_all scope.automatic recovery scope.exact scope.archives scope.noticed >>= λ found.
    if is_empty found.0 && not allow_empty
    then err (nothing_found found.1)
    else ok (newest_first found.0, scope.automatic, found.1)

-- A download: its files, an error of the disk's space, or another one.
pub data Download (P : Type 0) : Type 0 where
  complete : P → Download P
  disk_full : Download P
  unreadable : String → Download P

-- The answers for one candidate: the reservation, the lifecycle record, the download, the release, and
-- the removal of rejected files.
pub record Attempt (P : Type 0) : Type 0 where
  pub reserved : Option String
  pub lifecycle : Result String (Option Lifecycle)
  pub download : Download P
  pub released : Option String
  pub removed : Option String

is_inactive : Option Lifecycle → Bool
is_inactive none = true
is_inactive (some state) =
    is_true state.retired || is_false state.published || is_false state.indexed

lifecycle_notices : Candidate → Result String (Option Lifecycle) → List Notice
unfolding is_inactive
lifecycle_notices candidate (err e) = damaged candidate e ∷ []
lifecycle_notices candidate (ok state) = if is_inactive state then inactive candidate ∷ [] else []

noticed_if : (String → Notice) → Option String → List Notice
noticed_if f none = []
noticed_if f (some e) = f e ∷ []

-- What an attempt notices, whether or not its download succeeds.
remarks : {P : Type 0} → Candidate → Attempt P → List Notice
unfolding lifecycle_notices noticed_if
remarks candidate attempt =
    noticed_if (unreserved candidate) attempt.reserved
    ++ (lifecycle_notices candidate attempt.lifecycle
        ++ noticed_if (unreleased candidate) attempt.released)

-- The loop of `prepare`: the first candidate that is downloaded and validated.
pub prepare_first :
    {P : Type 0}
    → (Candidate → Attempt P)
    → Bool
    → List Candidate
    → List Notice
    → Result Error (Candidate × P × List Notice)
unfolding remarks
prepare_first answers automatic [] notices = err (nothing_usable notices)
prepare_first answers automatic (candidate ∷ rest) notices =
    let seen = notices ++ remarks candidate (answers candidate) in
    elim (answers candidate).download [
      | complete files ↦ ok (candidate, files, seen)
      | disk_full ↦ err insufficient_space
      | unreadable e ↦
          let later =
            prepare_first answers automatic rest (seen ++ unreadable_copy candidate e ∷ []) in
          if not automatic
          then err (cannot_read candidate e)
          else elim (answers candidate).removed [ some e' ↦ err (not_removed e') | none ↦ later ]
    ]

-- `prepare`: the chosen copy, its files and its warnings.
pub prepare :
    {P : Type 0}
    → (String → Result String Archive)
    → List (String × Result String Archive)
    → (Candidate → Attempt P)
    → Selection
    → Result Error (Candidate × P × List Notice)
unfolding candidates prepare_first
prepare resolve locations answers selection =
    candidates resolve locations selection false true >>= λ found.
    prepare_first answers found.1 found.0 found.2
