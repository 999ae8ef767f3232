-- ===== src/Prelude/Maps.antt =====
-- A Python dict as an association list in insertion order: a write to a present key keeps its place.
use mathlib.Core.Path.{◌≡◌, refl}
use mathlib.Core.Option.{Option, none, some}
use mathlib.Core.List.{List, [], ◌∷◌}
use native.Mathlib.Omega.{arith}
use Prim.Native.Nat.{ℕ, ◌+◌}
use usagebassoon.Prelude.Tests.{if◌then◌else◌}
use usagebassoon.Prelude.Lists.{sum_of}
use usagebassoon.Prelude.Keys.{Eq, ◌==◌}

abbrev pub Dict {ℓ κ} : Type ℓ → Type κ → Type (ℓ ⊔ κ)
Dict K V = List (K × V)

-- `d.keys()`
abbrev pub keys {ℓ κ} : {K : Type ℓ} {V : Type κ} → Dict K V → List K
keys [] = []
keys ((k, v) ∷ d) = k ∷ keys d

-- `d.values()`
abbrev pub values {ℓ κ} : {K : Type ℓ} {V : Type κ} → Dict K V → List V
values [] = []
values ((k, v) ∷ d) = v ∷ values d

module _ {ℓ κ} {K : Type ℓ} {V : Type κ} ⦃e : Eq K⦄ where
  -- `d.get(k)`
  unfoldable pub lookup : K → Dict K V → Option V
  lookup k [] = none
  lookup k ((j, v) ∷ d) = if j == k then some v else lookup k d

  -- `d[k] = v`
  unfoldable pub insert : K → V → Dict K V → Dict K V
  insert k v [] = (k, v) ∷ []
  insert k v ((j, w) ∷ d) = if j == k then (j, v) ∷ d else (j, w) ∷ insert k v d

  pub lookup-insert :
      (k j : K) (v : V) (d : Dict K V)
      → lookup j (insert k v d) ≡ (if k == j then some v else lookup j d)
  unfolding lookup insert
  lookup-insert k j v [] = refl
  lookup-insert k j v ((i, w) ∷ d) =
      ground (arith, e.beq_iff k j, e.beq_iff i k, e.beq_iff i j, lookup-insert k j v d)

  -- `del d[k]`
  unfoldable pub remove : K → Dict K V → Dict K V
  remove k [] = []
  remove k ((j, v) ∷ d) = let rest = remove k d in if j == k then rest else (j, v) ∷ rest

  -- A key that is removed is gone, and no other is.
  pub lookup-remove :
      (k j : K) (d : Dict K V) → lookup j (remove k d) ≡ (if k == j then none else lookup j d)
  unfolding lookup remove
  lookup-remove k j [] = ground arith
  lookup-remove k j ((i, w) ∷ d) =
      ground (arith, e.beq_iff k j, e.beq_iff i k, e.beq_iff i j, lookup-remove k j d)

  -- `d.update(other)`
  unfoldable pub update : Dict K V → Dict K V → Dict K V
  update [] d = d
  update ((k, v) ∷ new) d = update new (insert k v d)

  module _ (f : V → ℕ) where
    -- A new key adds its value to a sum over the values; a present one exchanges it.
    pub sum_of-insert-new :
        (k : K) (v : V) (d : Dict K V)
        → lookup k d ≡ none
        → sum_of f (values (insert k v d)) ≡ sum_of f (values d) + f v
    unfolding lookup insert
    sum_of-insert-new k v [] h = omega arith
    sum_of-insert-new k v ((j, w) ∷ d) h = ground (arith, sum_of-insert-new k v d)

    pub sum_of-insert-present :
        (k : K) (v w : V) (d : Dict K V)
        → lookup k d ≡ some w
        → sum_of f (values (insert k v d)) + f w ≡ sum_of f (values d) + f v
    unfolding lookup insert
    sum_of-insert-present k v w [] h = ground arith
    sum_of-insert-present k v w ((j, u) ∷ d) h = ground (arith, sum_of-insert-present k v w d)
