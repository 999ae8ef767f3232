-- ===== src/Persistence/Planning/Folds.antt =====
-- What the loops over rows in src/usagebassoon/persistence.py build: dictionaries and sets.
use mathlib.Core.List.{append-nil, append_assoc}
use usagebassoon.Prelude.{
  String, true, false, List, [], ◌∷◌, ◌++◌, ◌||◌, string_eq, nat_eq, pair_eq, add, contains, Dict,
  insert, keys, distinct_keys, ◌≡◌, refl, arith, Eq, ◌∙◌, sym, contains-add, lookup-insert,
}
use usagebassoon.Usage.{Day}
use usagebassoon.Orchestrator.Requests.{ModelsByDay, models_on}

-- A fold over a list from the left.
unfoldable pub fold {ℓ κ} : {A : Type ℓ} {T : Type κ} → (T → A → A) → List T → A → A
fold f [] a = a
fold f (x ∷ xs) a = fold f xs (f x a)

module _ {ℓ κ} {K : Type ℓ} {V : Type κ} ⦃e : Eq K⦄ where
  insert-new :
      (k : K) (v : V) (d : Dict K V) → contains (keys d) k ≡ false → insert k v d ≡ d ++ (k, v) ∷ []
  unfolding insert contains
  insert-new k v [] h = refl
  insert-new k v ((j, w) ∷ d) h = ground (arith, insert-new k v d, h)

  contains-keys-append :
      (a : K) (d rest : Dict K V)
      → contains (keys (d ++ rest)) a ≡ (contains (keys d) a || contains (keys rest) a)
  unfolding contains
  contains-keys-append a [] rest = refl
  contains-keys-append a ((j, w) ∷ d) rest = ground (arith, contains-keys-append a d rest)

  distinct-middle :
      (k : K) (v : V) (d rest : Dict K V)
      → distinct_keys (d ++ (k, v) ∷ rest) ≡ true
      → contains (keys d) k ≡ false
  unfolding distinct_keys contains
  distinct-middle k v [] rest h = refl
  distinct-middle k v ((j, w) ∷ d) rest h = ground (
    arith,
    h,
    contains-keys-append j d ((k, v) ∷ rest),
    distinct-middle k v d rest,
    e.beq_iff j k,
    e.beq_iff k j,
  )

  -- Entries of distinct keys, inserted in turn, are the entries in their order.
  pub fold-insert :
      (xs d : Dict K V)
      → distinct_keys (d ++ xs) ≡ true
      → fold (λ (x : K × V) acc. insert x.0 x.1 acc) xs d ≡ d ++ xs
  unfolding fold
  fold-insert [] d h = sym (append-nil d)
  fold-insert ((k, v) ∷ xs) d h = rw (insert-new k v d (distinct-middle k v d xs h)) (
      fold-insert xs (d ++ (k, v) ∷ []) (rw (append_assoc d ((k, v) ∷ []) xs) h)
      ∙ append_assoc d ((k, v) ∷ []) xs)

-- What a fold of additions to a set has.
pub contains-fold-add {ℓ} :
    {A : Type ℓ} ⦃e : Eq A⦄ (xs before : List A) (a : A)
    → contains (fold add xs before) a ≡ (contains before a || contains xs a)
unfolding fold contains
contains-fold-add [] before a = ground arith
contains-fold-add (x ∷ xs) before a =
    ground (arith, contains-fold-add xs (add x before) a, contains-add x a before)

-- `setdefault(day, set()).add(model)`
abbrev pub add_on_day : Day × String → ModelsByDay → ModelsByDay
add_on_day (day, model) by_day = insert day (add model (models_on day by_day)) by_day

pub contains-fold-add_on_day :
    (xs : List (Day × String)) (before : ModelsByDay) (d : Day) (m : String)
    → contains (models_on d (fold add_on_day xs before)) m
      ≡ (contains (models_on d before) m || contains xs (d, m))
unfolding fold contains
contains-fold-add_on_day [] before d m = ground arith
contains-fold-add_on_day ((day, model) ∷ xs) before d m =
    let both = add model (models_on day before) in
    ground (
      arith,
      contains-fold-add_on_day xs (add_on_day (day, model) before) d m,
      lookup-insert day d both before,
      contains-add model m (models_on day before),
      nat_eq.beq_iff day d,
    )
