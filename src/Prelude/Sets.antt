-- ===== src/Prelude/Sets.antt =====
-- A Python set as a list whose order is not observed: only membership is.
use mathlib.Core.Path.{◌≡◌, refl}
use mathlib.Core.Bool.{Bool, true, false, not, ◌&&◌, ◌||◌}
use mathlib.Core.List.{List, [], ◌∷◌, ◌++◌}
use native.Mathlib.Omega.{arith}
use Prim.Native.Nat.{◌≤◌}
use mathlib.Core.Logic.{inl, inr}
use usagebassoon.Prelude.Lists.{length, is_empty, select}
use usagebassoon.Prelude.Tests.{if◌then◌else◌, Bool-cases}
use usagebassoon.Prelude.Keys.{Eq, ◌==◌}

module _ {ℓ} {A : Type ℓ} ⦃e : Eq A⦄ where
  -- `a in xs`
  unfoldable pub contains : List A → A → Bool
  contains [] a = false
  contains (x ∷ xs) a = (x == a) || contains xs a

  -- `xs.add(a)`
  unfoldable pub add : A → List A → List A
  add a xs = if contains xs a then xs else a ∷ xs

  -- `xs | ys`
  unfoldable pub union : List A → List A → List A
  union [] ys = ys
  union (x ∷ xs) ys = add x (union xs ys)

  -- `xs - ys`
  unfoldable pub difference : List A → List A → List A
  difference [] ys = []
  difference (x ∷ xs) ys = let rest = difference xs ys in if contains ys x then rest else x ∷ rest

  -- `xs & ys`
  unfoldable pub inter : List A → List A → List A
  inter [] ys = []
  inter (x ∷ xs) ys = let rest = inter xs ys in if contains ys x then x ∷ rest else rest

  -- `xs <= ys`
  pub subset : List A → List A → Bool
  subset [] ys = true
  subset (x ∷ xs) ys = contains ys x && subset xs ys

  -- `set(xs)`, which drops repetitions
  unfoldable pub to_set : List A → List A
  to_set [] = []
  to_set (x ∷ xs) = add x (to_set xs)

  pub contains-add : (a x : A) (xs : List A) → contains (add a xs) x ≡ ((a == x) || contains xs x)
  unfolding contains add
  contains-add a x xs = ground (arith, e.beq_iff a x)

  pub contains-union :
      (xs ys : List A) (a : A) → contains (union xs ys) a ≡ (contains xs a || contains ys a)
  unfolding contains union
  contains-union [] ys a = refl
  contains-union (x ∷ xs) ys a =
      ground (arith, contains-union xs ys a, contains-add x a (union xs ys))

  pub contains-to_set : (xs : List A) (a : A) → contains (to_set xs) a ≡ contains xs a
  unfolding contains to_set
  contains-to_set [] a = refl
  contains-to_set (x ∷ xs) a = ground (arith, contains-to_set xs a, contains-add x a (to_set xs))

  pub contains-difference :
      (xs ys : List A) (a : A)
      → contains (difference xs ys) a ≡ (contains xs a && not (contains ys a))
  unfolding contains difference
  contains-difference [] ys a = refl
  contains-difference (x ∷ xs) ys a = ground (arith, contains-difference xs ys a, e.beq_iff x a)

  pub contains-inter :
      (xs ys : List A) (a : A) → contains (inter xs ys) a ≡ (contains xs a && contains ys a)
  unfolding contains inter
  contains-inter [] ys a = refl
  contains-inter (x ∷ xs) ys a = ground (arith, contains-inter xs ys a, e.beq_iff x a)

  -- A selection by a test on the element keeps the members that pass it.
  pub contains-select :
      (p : A → Bool) (xs : List A) (a : A) → contains (select p xs) a ≡ (contains xs a && p a)
  unfolding contains
  contains-select p [] a = refl
  contains-select p (x ∷ xs) a = elim (Bool-cases (x == a)) [
    | inl same ↦ rw ((e.beq_iff x a).0 same) (ground (arith, contains-select p xs a, e.beq_iff a a))
    | inr other ↦ ground (arith, contains-select p xs a)
  ]

  pub contains-append :
      (xs ys : List A) (a : A) → contains (xs ++ ys) a ≡ (contains xs a || contains ys a)
  unfolding contains
  contains-append [] ys a = refl
  contains-append (x ∷ xs) ys a = ground (arith, contains-append xs ys a)

module _ {ℓ} {A : Type ℓ} ⦃e : Eq A⦄ where
  pub length-inter : (xs ys : List A) → length (inter xs ys) ≤ length xs
  unfolding inter
  length-inter [] ys = omega arith
  length-inter (x ∷ xs) ys = ground (arith, length-inter xs ys)

  pub length-inter-subset :
      (xs ys : List A) → is_empty (difference xs ys) ≡ true → length (inter xs ys) ≡ length xs
  unfolding inter difference
  length-inter-subset [] ys h = refl
  length-inter-subset (x ∷ xs) ys h = ground (arith, length-inter-subset xs ys)

-- The membership laws.
pub ruleset set_laws = (
  contains-add, contains-union, contains-to_set, contains-difference, contains-inter,
  contains-append,
)
