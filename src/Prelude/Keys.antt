-- ===== src/Prelude/Keys.antt =====
-- Equality and order of the values that Python uses as dictionary keys and sorts by.
use Prim.Native.Nat.{ℕ, Ordering}
use Prim.Native.String.{String, compare}
use mathlib.Core.Path.{◌≡◌, refl}
use mathlib.Core.Logic.{◌↔◌, inl, inr}
use mathlib.Core.Bool.{Bool, true, false, ◌&&◌}
use mathlib.Core.Option.{Option, none, some}
use native.Mathlib.Omega.{arith}
use text.Mathlib.Text.{◌==◌ as str_eq}
use text.Mathlib.TextEquality.{eq_iff}
use usagebassoon.Prelude.Tests.{nat_beq, nat_beq_iff, leb, Bool-cases}

-- A Boolean test that decides equality.
pub record Eq {ℓ} (K : Type ℓ) : Type ℓ where
  pub beq : K → K → Bool
  pub beq_iff : (k l : K) → (beq k l ≡ true) ↔ (k ≡ l)

instance abbrev pub string_eq : Eq String
string_eq = record { beq = str_eq; beq_iff = eq_iff }

pub string_discrete : Discrete String
string_discrete s t = elim (Bool-cases (str_eq s t)) [
  | inl same ↦ yes ((eq_iff s t).0 same)
  | inr other ↦ no (λ same. ground (arith, (eq_iff s t).1 same))
]

instance abbrev pub nat_eq : Eq ℕ
nat_eq = record { beq = nat_beq; beq_iff = nat_beq_iff }

infix 50 ◌==◌
abbrev pub ◌==◌ {ℓ} : {K : Type ℓ} ⦃test : Eq K⦄ → K → K → Bool
◌==◌ ⦃test⦄ = test.beq

pub beq_refl {ℓ} : {K : Type ℓ} ⦃test : Eq K⦄ (k : K) → (k == k) ≡ true
beq_refl ⦃test⦄ k = (test.beq_iff k k).1 refl

module _ {ℓ κ} {A : Type ℓ} {B : Type κ} ⦃a : Eq A⦄ ⦃b : Eq B⦄ where
  abbrev pub pair_beq : A × B → A × B → Bool
  pair_beq (x, y) (u, v) = (x == u) && (y == v)

  pub pair_beq_iff : (p q : A × B) → (pair_beq p q ≡ true) ↔ (p ≡ q)
  pair_beq_iff (x, y) (u, v) = ground (arith, a.beq_iff x u, b.beq_iff y v)

instance abbrev pub pair_eq {ℓ κ} : {A : Type ℓ} {B : Type κ} ⦃a : Eq A⦄ ⦃b : Eq B⦄ → Eq (A × B)
pair_eq = record { beq = pair_beq; beq_iff = pair_beq_iff }

module _ {ℓ κ μ} {A : Type ℓ} {B : Type κ} {C : Type μ} ⦃a : Eq A⦄ ⦃b : Eq B⦄ ⦃c : Eq C⦄ where
  abbrev pub triple_beq : A × B × C → A × B × C → Bool
  triple_beq (x, y, z) (u, v, w) = (x == u) && ((y == v) && (z == w))

  pub triple_beq_iff : (p q : A × B × C) → (triple_beq p q ≡ true) ↔ (p ≡ q)
  triple_beq_iff (x, y, z) (u, v, w) = ground (arith, a.beq_iff x u, b.beq_iff y v, c.beq_iff z w)

instance abbrev pub triple_eq {ℓ κ μ} :
    {A : Type ℓ} {B : Type κ} {C : Type μ} ⦃a : Eq A⦄ ⦃b : Eq B⦄ ⦃c : Eq C⦄ → Eq (A × B × C)
triple_eq = record { beq = triple_beq; beq_iff = triple_beq_iff }

module _ {ℓ} {A : Type ℓ} ⦃a : Eq A⦄ where
  abbrev pub option_beq : Option A → Option A → Bool
  option_beq none none = true
  option_beq (some x) (some y) = x == y
  option_beq _ _ = false

  pub option_beq_iff : (p q : Option A) → (option_beq p q ≡ true) ↔ (p ≡ q)
  option_beq_iff none none = ground arith
  option_beq_iff none (some y) = ground arith
  option_beq_iff (some x) none = ground arith
  option_beq_iff (some x) (some y) = ground (arith, a.beq_iff x y)

instance abbrev pub option_eq {ℓ} : {A : Type ℓ} ⦃a : Eq A⦄ → Eq (Option A)
option_eq = record { beq = option_beq; beq_iff = option_beq_iff }

-- Python's `<=` on the values that are sorted.
pub record Ord {ℓ} (A : Type ℓ) : Type ℓ where
  pub at_most : A → A → Bool

instance abbrev pub nat_ord : Ord ℕ
nat_ord = record { at_most = leb }

abbrev pub string_at_most : String → String → Bool
string_at_most s t = elim (compare s t) [ Ordering.gt ↦ false | _ ↦ true ]

instance abbrev pub string_ord : Ord String
string_ord = record { at_most = string_at_most }

-- Tuples are compared from the left.
abbrev pub pair_at_most {ℓ κ} :
    {A : Type ℓ} {B : Type κ} ⦃e : Eq A⦄ ⦃a : Ord A⦄ ⦃b : Ord B⦄ → A × B → A × B → Bool
pair_at_most ⦃e⦄ ⦃a⦄ ⦃b⦄ (x, y) (u, v) = elim (x == u) [
  | true ↦ b.at_most y v
  | false ↦ a.at_most x u
]

instance abbrev pub pair_ord {ℓ κ} :
    {A : Type ℓ} {B : Type κ} ⦃e : Eq A⦄ ⦃a : Ord A⦄ ⦃b : Ord B⦄ → Ord (A × B)
pair_ord = record { at_most = pair_at_most }
