-- ===== src/Snapshot/Rotation/Bounds.antt =====
-- What `rotate` of src/usagebassoon/snapshot/catalog.py keeps and what it retires.
use usagebassoon.Prelude.{
  ℕ, ◌+◌, ◌≤◌, ◌<◌, min, String, true, false, not, ◌&&◌, Option, none, some, List, [], ◌∷◌,
  string_eq, nat_eq, pair_eq, nat_ord, string_ord, contains, length, select, map, if◌then◌else◌,
  ◌≡◌, refl, arith, Bool-cases, Option-cases, inl, inr,
}
use usagebassoon.Snapshot.Documents.{Lifecycle, state}
use usagebassoon.Snapshot.Rotation.{
  Entry, is_managed, opens_week, rotate_round, rotate_rounds, newest_first, rotate, is_kept,
}

opens_week-bounds :
    (weeks : List String) (state : Lifecycle) (week : String)
    → opens_week weeks state ≡ some week
    → length weeks < 4
unfolding opens_week
opens_week-bounds weeks state week e = ground arith

-- A round that keeps a managed snapshot uses up a place of its count or of its weeks.
rotate_round-bounds :
    (max_snapshots : ℕ) (current : Option Lifecycle) (kept : ℕ) (weeks : List String)
    → length weeks ≤ 4
    → let round = rotate_round max_snapshots current kept weeks in
      (length round.weeks ≤ 4)
      × ((if is_managed current && not round.retires then 1 else 0)
            + (min kept max_snapshots + length weeks)
          ≤ min round.kept_scheduled max_snapshots + length round.weeks)
unfolding rotate_round
rotate_round-bounds max_snapshots none kept weeks few = unfold is_managed in ground arith
rotate_round-bounds max_snapshots (some state) kept weeks few =
    elim (Option-cases (opens_week weeks state)) [
      | inl e ↦ rw (e, rotate_round) (ground arith)
      | inr (week, e) ↦ rw (e, rotate_round) (ground (arith, opens_week-bounds weeks state week e))
    ]

rotate_rounds-kept :
    (max_snapshots : ℕ) (states : String → Option Lifecycle) (kept : ℕ) (weeks : List String)
    (newest : List Entry)
    → length weeks ≤ 4
    → length (select is_kept (rotate_rounds max_snapshots states kept weeks newest))
        + (min kept max_snapshots + length weeks)
      ≤ max_snapshots + 4
unfolding rotate_rounds
rotate_rounds-kept max_snapshots states kept weeks [] few = ground arith
rotate_rounds-kept max_snapshots states kept weeks (entry ∷ older) few =
    let current = states entry.snapshot_id in
    let round = rotate_round max_snapshots current kept weeks in
    let bounds = rotate_round-bounds max_snapshots current kept weeks few in
    let rest =
      rotate_rounds-kept max_snapshots states round.kept_scheduled round.weeks older bounds.0 in
    elim (Bool-cases (is_managed current && not round.retires)) [
      | inl keeps ↦ rw keeps (ground (arith, keeps, bounds.1, rest))
      | inr other ↦ rw other (ground (arith, other, bounds.1, rest))
    ]

-- Retention leaves at most `max_snapshots` and four managed snapshots in all, those kept for their week
-- among them. A pinned snapshot, or one of an uncertain state, is not managed.
pub rotate-bounds :
    (max_snapshots : ℕ) (states : String → Option Lifecycle) (newest : List Entry)
    → length (select is_kept (rotate_rounds max_snapshots states 0 [] newest)) ≤ max_snapshots + 4
rotate-bounds max_snapshots states newest =
    omega (arith, rotate_rounds-kept max_snapshots states 0 [] newest (omega arith))

round-retires :
    (max_snapshots : ℕ) (current : Option Lifecycle) (kept : ℕ) (weeks : List String)
    → (rotate_round max_snapshots current kept weeks).retires ≡ true
    → is_managed current ≡ true
unfolding rotate_round
round-retires max_snapshots none kept weeks h = cc
round-retires max_snapshots (some state) kept weeks h =
    elim (Bool-cases (is_managed (some state))) [
      | inl managed ↦ managed
      | inr other ↦ ground (arith, h, other)
    ]

rotate_rounds-is_managed :
    (max_snapshots : ℕ) (states : String → Option Lifecycle) (identifier : String) (kept : ℕ)
    (weeks : List String) (newest : List Entry)
    → contains
        (map
          (λ round. round.0.snapshot_id)
          (select (λ round. round.2) (rotate_rounds max_snapshots states kept weeks newest)))
        identifier
      ≡ true
    → is_managed (states identifier) ≡ true
unfolding rotate_rounds contains
rotate_rounds-is_managed max_snapshots states identifier kept weeks [] h = cc
rotate_rounds-is_managed max_snapshots states identifier kept weeks (entry ∷ older) h =
    let round = rotate_round max_snapshots (states entry.snapshot_id) kept weeks in
    ground (
      arith,
      h,
      rotate_rounds-is_managed max_snapshots states identifier round.kept_scheduled round.weeks
          older,
      round-retires max_snapshots (states entry.snapshot_id) kept weeks,
      string_eq.beq_iff entry.snapshot_id identifier,
    )

is_managed-unpinned :
    (current : Option Lifecycle)
    → is_managed current ≡ true
    → (state : Lifecycle) × (current ≡ some state)
      × (state.retired ≡ some false)
      × (state.pinned ≡ some false)
unfolding is_managed
is_managed-unpinned none h = cc
is_managed-unpinned (some state) h = (state, refl, ground (arith, h), ground (arith, h))

-- Whatever `rotate` hands to `retire` has a record that says that it is neither retired nor pinned.
pub rotate-unpinned :
    (max_snapshots : ℕ) (states : String → Option Lifecycle) (listed : List Entry)
    (identifier : String)
    → contains (rotate max_snapshots states listed) identifier ≡ true
    → (state : Lifecycle) × (states identifier ≡ some state)
      × (state.retired ≡ some false)
      × (state.pinned ≡ some false)
unfolding rotate
rotate-unpinned max_snapshots states listed identifier chosen =
    is_managed-unpinned (states identifier)
      (rotate_rounds-is_managed max_snapshots states identifier 0 [] (newest_first listed) chosen)
