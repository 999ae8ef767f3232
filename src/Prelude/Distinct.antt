-- ===== src/Prelude/Distinct.antt =====
-- Dictionaries whose keys are distinct: those that insertions build.
use mathlib.Core.Path.{◌≡◌, refl}
use mathlib.Core.Bool.{Bool, true, not, ◌&&◌, ◌||◌}
use mathlib.Core.Option.{some}
use mathlib.Core.List.{[], ◌∷◌}
use mathlib.Core.Logic.{inl, inr}
use native.Mathlib.Omega.{arith}
use usagebassoon.Prelude.Tests.{Bool-cases}
use usagebassoon.Prelude.Lists.{All, All-imp}
use usagebassoon.Prelude.Keys.{Eq, ◌==◌, beq_refl}
use usagebassoon.Prelude.Maps.{Dict, keys, lookup, insert}
use usagebassoon.Prelude.Sets.{contains}

module _ {ℓ κ} {K : Type ℓ} {V : Type κ} ⦃e : Eq K⦄ where
  unfoldable pub distinct_keys : Dict K V → Bool
  distinct_keys [] = true
  distinct_keys ((k, v) ∷ d) = not (contains (keys d) k) && distinct_keys d

  pub contains-keys-insert :
      (k j : K) (v : V) (d : Dict K V)
      → contains (keys (insert k v d)) j ≡ ((k == j) || contains (keys d) j)
  unfolding insert contains
  contains-keys-insert k j v [] = refl
  contains-keys-insert k j v ((i, w) ∷ d) =
      ground (arith, e.beq_iff i k, e.beq_iff i j, e.beq_iff k j, contains-keys-insert k j v d)

  pub distinct_keys-insert :
      (k : K) (v : V) (d : Dict K V) → distinct_keys d ≡ true → distinct_keys (insert k v d) ≡ true
  unfolding insert distinct_keys contains
  distinct_keys-insert k v [] h = refl
  distinct_keys-insert k v ((i, w) ∷ d) h = ground (
    arith,
    e.beq_iff i k,
    e.beq_iff k i,
    contains-keys-insert k i v d,
    distinct_keys-insert k v d,
  )

  All-found :
      (d : Dict K V)
      → distinct_keys d ≡ true
      → All (λ x. (contains (keys d) x.0 ≡ true) × (lookup x.0 d ≡ some x.1)) d
  unfolding distinct_keys contains lookup
  All-found [] h = tt
  All-found ((k, v) ∷ d) h = (
    (ground (arith, beq_refl k), ground (arith, beq_refl k)),
    All-imp (λ x p. (ground (arith, e.beq_iff k x.0), ground (arith, e.beq_iff k x.0, p))) d
        (All-found d (ground arith)),
  )

  -- Every entry is the one that its key finds.
  pub All-lookup : (d : Dict K V) → distinct_keys d ≡ true → All (λ x. lookup x.0 d ≡ some x.1) d
  All-lookup d h = All-imp (λ x p. p.1) d (All-found d h)

  pub All-keys : (d : Dict K V) → distinct_keys d ≡ true → All (λ x. contains (keys d) x.0 ≡ true) d
  All-keys d h = All-imp (λ x p. p.0) d (All-found d h)

  -- An insertion keeps what holds of every entry.
  pub All-insert {μ} :
      (P : K × V → Type μ) (k : K) (v : V) (d : Dict K V)
      → P (k, v)
      → All P d
      → All P (insert k v d)
  unfolding insert
  All-insert P k v [] h hs = (h, tt)
  All-insert P k v ((j, w) ∷ d) h hs = elim (Bool-cases (j == k)) [
    | inl same ↦ rw same (rw ((e.beq_iff j k).0 same) h, hs.1)
    | inr other ↦ rw other (hs.0, All-insert P k v d h hs.1)
  ]
