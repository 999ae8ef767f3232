-- ===== src/Prelude/Sort.antt =====
-- `sorted(xs)` and `sorted(xs, key=f)`: stable insertion from the left.
use mathlib.Core.Path.{◌≡◌, refl}
use mathlib.Core.Bool.{Bool, ◌||◌}
use mathlib.Core.List.{List, [], ◌∷◌}
use mathlib.Core.Logic.{inl, inr}
use Prim.Native.Nat.{ℕ, ◌+◌}
use native.Mathlib.Omega.{arith}
use usagebassoon.Prelude.Tests.{if◌then◌else◌, Bool-cases}
use usagebassoon.Prelude.Keys.{Eq, ◌==◌, Ord}
use usagebassoon.Prelude.Lists.{any, All, sum_of}
use usagebassoon.Prelude.Sets.{contains}

module _ {ℓ} {A : Type ℓ} where
  -- Puts `a` before the first element that it may precede.
  unfoldable pub place : (A → A → Bool) → A → List A → List A
  place le a [] = a ∷ []
  place le a (x ∷ xs) = if le a x then a ∷ x ∷ xs else x ∷ place le a xs

  unfoldable pub sort_by : (A → A → Bool) → List A → List A
  sort_by le [] = []
  sort_by le (x ∷ xs) = place le x (sort_by le xs)

unfoldable pub sorted {ℓ} : {A : Type ℓ} ⦃o : Ord A⦄ → List A → List A
unfolding sort_by place
sorted ⦃o⦄ = sort_by o.at_most

module _ {ℓ} {A : Type ℓ} ⦃e : Eq A⦄ where
  contains-place :
      (le : A → A → Bool) (a x : A) (xs : List A)
      → contains (place le a xs) x ≡ ((a == x) || contains xs x)
  unfolding contains place
  contains-place le a x [] = refl
  contains-place le a x (y ∷ xs) = ground (arith, contains-place le a x xs)

  contains-sort_by :
      (le : A → A → Bool) (xs : List A) (x : A) → contains (sort_by le xs) x ≡ contains xs x
  unfolding contains sort_by
  contains-sort_by le [] x = refl
  contains-sort_by le (y ∷ xs) x =
      ground (arith, contains-sort_by le xs x, contains-place le y x (sort_by le xs))

pub contains-sorted {ℓ} :
    {A : Type ℓ} ⦃e : Eq A⦄ ⦃o : Ord A⦄ (xs : List A) (x : A)
    → contains (sorted xs) x ≡ contains xs x
unfolding sorted
contains-sorted ⦃e⦄ ⦃o⦄ xs x = contains-sort_by o.at_most xs x

module _ {ℓ} {A : Type ℓ} (p : A → Bool) (le : A → A → Bool) where
  any-place : (a : A) (xs : List A) → any p (place le a xs) ≡ (p a || any p xs)
  unfolding place
  any-place a [] = refl
  any-place a (y ∷ xs) = ground (arith, any-place a xs)

  pub any-sort_by : (xs : List A) → any p (sort_by le xs) ≡ any p xs
  unfolding sort_by
  any-sort_by [] = refl
  any-sort_by (y ∷ xs) = ground (arith, any-sort_by xs, any-place y (sort_by le xs))

module _ {ℓ κ} {A : Type ℓ} (P : A → Type κ) (le : A → A → Bool) where
  All-place : (a : A) (xs : List A) → P a → All P xs → All P (place le a xs)
  unfolding place
  All-place a [] h hs = (h, tt)
  All-place a (y ∷ xs) h hs = elim (Bool-cases (le a y)) [
    | inl before ↦ rw before (h, hs)
    | inr after ↦ rw after (hs.0, All-place a xs h hs.1)
  ]

  pub All-sort_by : (xs : List A) → All P xs → All P (sort_by le xs)
  unfolding sort_by
  All-sort_by [] hs = tt
  All-sort_by (y ∷ xs) hs = All-place y (sort_by le xs) hs.0 (All-sort_by xs hs.1)

module _ {ℓ} {A : Type ℓ} (f : A → ℕ) (le : A → A → Bool) where
  sum_of-place : (a : A) (xs : List A) → sum_of f (place le a xs) ≡ f a + sum_of f xs
  unfolding place
  sum_of-place a [] = refl
  sum_of-place a (y ∷ xs) = ground (arith, sum_of-place a xs)

  pub sum_of-sort_by : (xs : List A) → sum_of f (sort_by le xs) ≡ sum_of f xs
  unfolding sort_by
  sum_of-sort_by [] = refl
  sum_of-sort_by (y ∷ xs) = omega (arith, sum_of-sort_by xs, sum_of-place y (sort_by le xs))
