-- ===== src/Snapshot/Rotation.antt =====
-- The entries of an archive and its retention: `entries`, `rotate` and `_entry_order` of
-- src/usagebassoon/snapshot/catalog.py.
pub mod Bounds
use usagebassoon.Prelude.{
  ℕ, suc, ◌+◌, ◌≤◌, ◌<◌, min, String, Bool, true, false, not, ◌&&◌, ◌||◌, Option, none, some, List,
  [], ◌∷◌, string_eq, nat_eq, pair_eq, nat_ord, string_ord, pair_at_most, leb, ltb, is_some,
  contains, length, select, map, or_else, if◌then◌else◌, Dict, keys, values, insert, Result, ok,
  err, ◌>>=◌, ◌≡◌, arith, Bool-cases, Option-cases, inl, inr, sort_by,
}
use usagebassoon.Usage.{Time}
use usagebassoon.Snapshot.Documents.{absent, held, malformed, Lifecycle, Error, value_error, state}
use usagebassoon.Snapshot.Changes.{is_true, is_false}
use usagebassoon.Snapshot.Lifecycles.{is_snapshot_id}

pub record Entry : Type 0 where
  pub snapshot_id : String
  pub captured_at : Time

-- `sorted(entries, key=_entry_order)` compares by this.
entry_order : Entry → Entry → Bool
entry_order a b = pair_at_most (a.captured_at, a.snapshot_id) (b.captured_at, b.snapshot_id)

-- The records that `entries` lists.
published_entries : Dict String Lifecycle → Result Error (Dict String Entry)
published_entries [] = ok []
published_entries ((key, state) ∷ records) =
    let rest = published_entries records in
    if not (is_snapshot_id key)
    then err value_error
    else if is_true state.published && is_false state.retired && not (is_false state.indexed)
    then elim state.captured_at [
      | held captured ↦ rest >>= λ entries.
          ok ((key, record { snapshot_id = key; captured_at = captured }) ∷ entries)
      | absent ↦ err value_error
      | malformed ↦ err value_error
    ]
    else rest

-- A directory that the bucket has and the control document does not know is listed too.
add_discovered : List Entry → Dict String Lifecycle → Dict String Entry → Dict String Entry
add_discovered [] records managed = managed
add_discovered (entry ∷ found) records managed = add_discovered found records (
    if contains (keys records) entry.snapshot_id
    then managed
    else insert entry.snapshot_id entry managed)

-- `entries`, where the control document has records. `discovered` is what `discover` returns.
pub entries : List Entry → Dict String Lifecycle → Result Error (List Entry)
unfolding entry_order published_entries add_discovered
entries discovered records = published_entries records >>= λ managed.
    ok (sort_by entry_order (values (add_discovered discovered records managed)))

unfoldable pub has_role : String → Lifecycle → Bool
has_role role state = contains (or_else state.roles []) role

-- `rotate` passes over every snapshot but these: the state is certain, and there is no pin.
pub is_managed : Option Lifecycle → Bool
is_managed none = false
is_managed (some state) =
    is_false state.retired && is_some state.pinned && not (is_true state.pinned)

-- The loop's variables, and whether the entry of this round is to be retired.
pub record Round : Type 0 where
  retires : Bool
  kept_scheduled : ℕ
  weeks : List String

-- The week that an entry opens, if it has a weekly slot that is free.
opens_week : List String → Lifecycle → Option String
unfolding has_role
opens_week weeks state = elim state.weekly_slot [
  | absent ↦ none
  | malformed ↦ none
  | held week ↦
      if has_role "weekly" state && not (contains weeks week) && ltb (length weeks) 4
      then some week
      else none
]

-- One round of `rotate`.
rotate_round : ℕ → Option Lifecycle → ℕ → List String → Round
unfolding is_managed opens_week has_role
rotate_round max_snapshots none kept weeks = record {
  retires = false;
  kept_scheduled = kept;
  weeks = weeks;
}
rotate_round max_snapshots (some state) kept weeks =
    let counted = has_role "scheduled" state || has_role "manual" state in
    let count = if counted then suc kept else kept in
    let scheduled = counted && leb count max_snapshots in
    if is_managed (some state)
    then elim (opens_week weeks state) [
      | none ↦ record { retires = not scheduled; kept_scheduled = count; weeks = weeks }
      | some week ↦ record { retires = false; kept_scheduled = count; weeks = week ∷ weeks }
    ]
    else record { retires = false; kept_scheduled = kept; weeks = weeks }

-- The rounds over the entries, newest first: each entry with its state and whether it is retired.
pub rotate_rounds :
    ℕ
    → (String → Option Lifecycle)
    → ℕ
    → List String
    → List Entry
    → List (Entry × Option Lifecycle × Bool)
unfolding rotate_round
rotate_rounds max_snapshots states kept weeks [] = []
rotate_rounds max_snapshots states kept weeks (entry ∷ older) =
    let current = states entry.snapshot_id in
    let round = rotate_round max_snapshots current kept weeks in
    (entry, current, round.retires)
    ∷ rotate_rounds max_snapshots states round.kept_scheduled round.weeks older

-- `sorted(entries, key=_entry_order, reverse=True)`
newest_first : List Entry → List Entry
unfolding entry_order
newest_first = sort_by (λ a b. entry_order b a)

-- The identifiers that `rotate` hands to `retire`, in order.
unfoldable pub rotate : ℕ → (String → Option Lifecycle) → List Entry → List String
unfolding rotate_rounds newest_first
rotate max_snapshots states listed =
    map (λ round. round.0.snapshot_id)
      (select (λ round. round.2) (rotate_rounds max_snapshots states 0 [] (newest_first listed)))

-- The snapshots that retention counts, and leaves in place.
abbrev pub is_kept : Entry × Option Lifecycle × Bool → Bool
is_kept (entry, current, retires) = is_managed current && not retires
