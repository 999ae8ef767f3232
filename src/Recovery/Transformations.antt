-- ===== src/Recovery/Transformations.antt =====
-- The steps by which an older snapshot is brought to the current contract: `transformation_path` of
-- src/usagebassoon/snapshot/format.py, with the registered steps and contracts as arguments.
use mathlib.Core.Path.{subst}
use usagebassoon.Prelude.{
  ℕ, zero, suc, ◌+◌, ◌-◌, ◌≤◌, true, List, [], ◌∷◌, ◌||◌, not, ◌==◌, nat_eq, ltb, contains, select,
  if◌then◌else◌, Result, ok, err, ◌>>=◌, >>=-eq-ok, ◌≡◌, arith, Bool-cases, inl, inr, ◌↔◌,
}

pub record Transformation : Type 0 where
  pub from_version : ℕ
  pub to_version : ℕ

pub data PathError : Type 0 where
  no_path : PathError
  unregistered : PathError
  overshoots : PathError

-- The step of one round: exactly one is registered for the version, and it leads to the next.
step_from : List Transformation → List ℕ → ℕ → Result PathError Transformation
step_from steps contracts version = elim (select (λ step. step.from_version == version) steps) [
  | [] ↦ err no_path
  | step ∷ [] ↦
      if not (step.to_version == version + 1)
      then err no_path
      else if not (contains contracts step.from_version) || not (contains contracts step.to_version)
      then err unregistered
      else ok step
  | step ∷ another ∷ more ↦ err no_path
]

-- The loop, with the rounds that are left.
path_from : List Transformation → List ℕ → ℕ → ℕ → ℕ → Result PathError (List Transformation)
unfolding step_from
path_from steps contracts current version zero =
    if version == current then ok [] else err overshoots
path_from steps contracts current version (suc rounds) =
    let rest = step_from steps contracts version >>= λ step.
    path_from steps contracts current step.to_version rounds >>= λ later. ok (step ∷ later) in
    if ltb version current then rest else if version == current then ok [] else err overshoots

-- `transformation_path`. A round brings the version one nearer to the current one.
unfoldable pub transformation_path :
    List Transformation → List ℕ → ℕ → ℕ → Result PathError (List Transformation)
unfolding path_from
transformation_path steps contracts current version =
    path_from steps contracts current version (current - version)

-- The steps lead from the one version to the other, one version at a time, each the only one that is
-- registered for its version, and between contracts that are registered.
pub Leads : List Transformation → List ℕ → ℕ → ℕ → List Transformation → Type 0
Leads steps contracts version current [] = version ≡ current
Leads steps contracts version current (step ∷ later) =
    (select (λ s. s.from_version == version) steps ≡ step ∷ [])
    × (step.to_version ≡ version + 1)
    × (contains contracts step.from_version ≡ true)
    × (contains contracts step.to_version ≡ true)
    × Leads steps contracts step.to_version current later

step_from-eq-ok :
    (steps : List Transformation) (contracts : List ℕ) (version : ℕ) (step : Transformation)
    → step_from steps contracts version ≡ ok step
    → (select (λ s. s.from_version == version) steps ≡ step ∷ [])
      × (step.to_version ≡ version + 1)
      × (contains contracts step.from_version ≡ true)
      × (contains contracts step.to_version ≡ true)
unfolding step_from
step_from-eq-ok steps contracts version step h =
    (ground (arith, h), ground (arith, h), ground (arith, h), ground (arith, h))

ended-Leads :
    (steps : List Transformation) (contracts : List ℕ) (current version : ℕ)
    (path : List Transformation)
    → path_from steps contracts current version zero ≡ ok path
    → Leads steps contracts version current path
unfolding path_from Leads
ended-Leads steps contracts current version [] h = ground (arith, h)
ended-Leads steps contracts current version (step ∷ later) h = ground (arith, h)

path_from-Leads :
    (steps : List Transformation) (contracts : List ℕ) (current version rounds : ℕ)
    (path : List Transformation)
    → path_from steps contracts current version rounds ≡ ok path
    → Leads steps contracts version current path
unfolding path_from Leads
path_from-Leads steps contracts current version zero path h =
    ended-Leads steps contracts current version path h
path_from-Leads steps contracts current version (suc rounds) path h =
    elim (Bool-cases (ltb version current)) [
      | inr no_more ↦ ended-Leads steps contracts current version path (ground (arith, h, no_more))
      | inl more ↦
          let (step, stepped, after) =
            >>=-eq-ok (step_from steps contracts version) _ (rw more at h) in
          let (later, walked, last) =
            >>=-eq-ok (path_from steps contracts current step.to_version rounds) _ after in
          let (only, next, from, to) = step_from-eq-ok steps contracts version step stepped in
          let joined : step ∷ later ≡ path = ground (arith, last) in
          let walk = path_from-Leads steps contracts current step.to_version rounds later walked in
          subst (Leads steps contracts version current) joined (only, next, from, to, walk)
    ]

Leads-le :
    (steps : List Transformation) (contracts : List ℕ) (version current : ℕ)
    (path : List Transformation)
    → Leads steps contracts version current path
    → version ≤ current
unfolding Leads
Leads-le steps contracts version current [] h = omega (arith, h)
Leads-le steps contracts version current (step ∷ later) (only, next, from, to, walk) =
    omega (arith, next, Leads-le steps contracts step.to_version current later walk)

step_from-only :
    (steps : List Transformation) (contracts : List ℕ) (version : ℕ) (step : Transformation)
    → select (λ s. s.from_version == version) steps ≡ step ∷ []
    → step.to_version ≡ version + 1
    → contains contracts step.from_version ≡ true
    → contains contracts step.to_version ≡ true
    → step_from steps contracts version ≡ ok step
unfolding step_from
step_from-only steps contracts version step only next from to = ground arith

path_from-total :
    (steps : List Transformation) (contracts : List ℕ) (current version rounds : ℕ)
    (path : List Transformation)
    → Leads steps contracts version current path
    → version + rounds ≡ current
    → path_from steps contracts current version rounds ≡ ok path
unfolding path_from Leads
path_from-total steps contracts current version zero [] h enough = ground arith
path_from-total steps contracts current version (suc rounds) [] h enough = absurd (omega arith)
path_from-total steps contracts current version zero (step ∷ later) (only, next, from, to, walk)
      enough =
    let le = Leads-le steps contracts step.to_version current later walk in absurd (omega arith)
path_from-total steps contracts current version (suc rounds) (step ∷ later)
      (only, next, from, to, walk) enough =
    let le = Leads-le steps contracts step.to_version current later walk in
    ground (
      arith,
      step_from-only steps contracts version step only next from to,
      path_from-total steps contracts current step.to_version rounds later walk,
    )

-- A path is returned exactly when it leads from the version to the current one, and then as many rounds
-- as lie between the versions are enough to find it.
pub transformation_path-Leads :
    (steps : List Transformation) (contracts : List ℕ) (current version : ℕ)
    (path : List Transformation)
    → (transformation_path steps contracts current version ≡ ok path)
      ↔ Leads steps contracts version current path
unfolding transformation_path
transformation_path-Leads steps contracts current version path = (
  path_from-Leads steps contracts current version (current - version) path,
  λ walk.
      let le = Leads-le steps contracts version current path walk in
      path_from-total steps contracts current version (current - version) path walk (omega arith),
)
