-- ===== src/Deadlines/Sharing.antt =====
-- What the scopes of src/usagebassoon/deadlines.py leave behind, and that there is one grace for all
-- that is cleaned up under a deadline.
use mathlib.Core.Path.{subst}
use usagebassoon.Prelude.{
  ℕ, suc, ◌+◌, min, Option, none, some, Option-cases, Result-cases, ◌≡◌, ◌==◌, nat_eq, refl, arith,
  inl, inr, ◌⊎◌, Bool-cases, ◌∙◌, sym, ap,
}
use usagebassoon.Usage.{Time}
use usagebassoon.Deadlines.{
  Deadline, root, child, grace, expires, World, Body, start, remaining, check_time, in_scope,
  operation_deadline, operation, cleanup, cleanup_budget, limited, cleanup_seconds,
}

-- A scope leaves the deadline of the scope around it as it was, and every grace that was given.
pub record Behaves (before after : World) : Type 0 where
  pub restored : after.current ≡ before.current
  pub kept : (id : ℕ) (given : Time) → before.graces id ≡ some given → after.graces id ≡ some given

-- Every run of the body behaves.
abbrev pub IsBehaved {ℓ} : {A : Type ℓ} → Body A → Type 0
IsBehaved body = (world : World) → Behaves world (body world).1

abbrev Keeps : World → World → Type 0
Keeps before after =
    (id : ℕ) (given : Time) → before.graces id ≡ some given → after.graces id ≡ some given

cleanup-Keeps : (deadline : Deadline) (world : World) → Keeps world (cleanup deadline world).1
unfolding cleanup
cleanup-Keeps (grace time) world id given h = h
cleanup-Keeps (child time parent) world id given h = cleanup-Keeps parent world id given h
cleanup-Keeps (root own time) world id given h = elim (Option-cases (world.graces own)) [
  | inl fresh ↦ ground (arith, h, fresh, nat_eq.beq_iff id own, λ (e : id ≡ own). ap world.graces e)
  | inr (old, known) ↦ ground (arith, h, known)
]

Behaves-self : (world : World) → Behaves world world
Behaves-self world = record { restored = refl; kept = λ id given h. h }

-- A start gives out an identity, and changes nothing else.
start-world :
    (seconds : ℕ) (world : World)
    → ((start seconds world).1 ≡ world)
      ⊎ ((start seconds world).1 ≡ record world { next = suc world.next })
unfolding start
start-world seconds world = elim (Bool-cases (seconds == 0)) [
  | inl none_given ↦ inl (ground (arith, none_given))
  | inr some_given ↦ inr (ground (arith, some_given))
]

start-Behaves : (seconds : ℕ) (world : World) → Behaves world (start seconds world).1
start-Behaves seconds world = elim (start-world seconds world) [
  | inl same ↦ subst (Behaves world) (sym same) (Behaves-self world)
  | inr moved ↦
      subst (Behaves world) (sym moved) (record { restored = refl; kept = λ id given h. h })
]

operation_deadline-Behaves :
    (seconds : Option ℕ) (world : World) → Behaves world (operation_deadline seconds world).1
unfolding operation_deadline
operation_deadline-Behaves seconds world = elim (Option-cases world.current) [
  | inr (existing, inside) ↦ subst (Behaves world) (ground (arith, inside)) (Behaves-self world)
  | inl alone ↦ elim (Option-cases seconds) [
    | inl unbounded ↦ subst (Behaves world) (ground (arith, alone, unbounded)) (Behaves-self world)
    | inr (budget, given) ↦
        subst (Behaves world) (ground (arith, alone, given)) (start-Behaves budget world)
  ]
]

cleanup-current :
    (deadline : Deadline) (world : World) → (cleanup deadline world).1.current ≡ world.current
unfolding cleanup
cleanup-current (grace time) world = refl
cleanup-current (child time parent) world = cleanup-current parent world
cleanup-current (root own time) world = ground arith

module _ {ℓ} {A : Type ℓ} (body : Body A) (behaved : IsBehaved body) where
  in_scope-Behaves :
      (deadline last : Option Deadline) (world : World)
      → Behaves world (in_scope deadline last body world).1
  unfolding in_scope
  in_scope-Behaves deadline last world = record {
    restored = refl;
    kept = (behaved (record world { current = deadline })).kept;
  }

  in_scope-kept :
      (deadline last : Option Deadline) (start now : World)
      → Keeps start now
      → now.current ≡ start.current
      → Behaves start (in_scope deadline last body now).1
  in_scope-kept deadline last start now keeps same =
      let inner = in_scope-Behaves deadline last now in
      record {
        restored = inner.restored ∙ same;
        kept = λ id given h. inner.kept id given (keeps id given h);
      }

  -- What stands at the end of a scope whose deadline was settled.
  settled-Behaves :
      (deadline last : Option Deadline) (before now after : World)
      → Behaves before now
      → after ≡ (in_scope deadline last body now).1
      → Behaves before after
  settled-Behaves deadline last before now after settled same =
      subst (Behaves before) (sym same)
        (in_scope-kept deadline last before now settled.kept settled.restored)

  -- An operation leaves the deadline around it as it was, and every grace that was given, on every path,
  -- if its body does.
  pub operation-Behaves :
      (seconds : Option ℕ) (world : World) → Behaves world (operation seconds body world).1
  unfolding operation
  operation-Behaves seconds world =
      let chosen = operation_deadline seconds world in
      let settled = operation_deadline-Behaves seconds world in
      elim (Result-cases chosen.0) [
        | inl (e, failed) ↦ subst (Behaves world) (ground (arith, failed)) settled
        | inr (deadline, started) ↦ elim (Result-cases (check_time deadline chosen.1)) [
          | inl (e, late) ↦ subst (Behaves world) (ground (arith, started, late)) settled
          | inr (left, early) ↦
              settled-Behaves deadline deadline world chosen.1 _ settled
                (ground (arith, started, early))
        ]
      ]

  pub cleanup_budget-Behaves : (world : World) → Behaves world (cleanup_budget body world).1
  unfolding cleanup_budget
  cleanup_budget-Behaves world = elim (Option-cases world.current) [
    | inr (parent, inside) ↦
        settled-Behaves (some (cleanup parent world).0) none world (cleanup parent world).1 _
          (record { restored = cleanup-current parent world; kept = cleanup-Keeps parent world })
          (ground (arith, inside))
    | inl alone ↦
        let settled = start-Behaves cleanup_seconds world in
        elim (Result-cases (start cleanup_seconds world).0) [
          | inl (e, failed) ↦ subst (Behaves world) (ground (arith, alone, failed)) settled
          | inr (deadline, started) ↦
              settled-Behaves (some deadline) none world (start cleanup_seconds world).1 _ settled
                (ground (arith, alone, started))
        ]
  ]

  pub limited-Behaves : (seconds : ℕ) (world : World) → Behaves world (limited seconds body world).1
  unfolding limited
  limited-Behaves seconds world = elim (Bool-cases (seconds == 0)) [
    | inl nothing_left ↦ subst (Behaves world) (ground (arith, nothing_left)) (Behaves-self world)
    | inr some_left ↦ elim (Option-cases world.current) [
      | inl alone ↦
          let settled = start-Behaves seconds world in
          elim (Result-cases (start seconds world).0) [
            | inl (e, failed) ↦
                subst (Behaves world) (ground (arith, some_left, alone, failed)) settled
            | inr (deadline, started) ↦
                settled-Behaves (some deadline) (some deadline) world (start seconds world).1 _
                  settled (ground (arith, some_left, alone, started))
          ]
      | inr (parent, inside) ↦ elim (Result-cases (remaining parent none world)) [
        | inl (e, late) ↦
            subst (Behaves world) (ground (arith, some_left, inside, late)) (Behaves-self world)
        | inr (left, early) ↦
            let time = min (world.now + min seconds left) (expires parent) in
            settled-Behaves (some (child time parent)) (some (child time parent)) world world _
              (Behaves-self world) (ground (arith, some_left, inside, early))
      ]
    ]
  ]

-- The deadline from which the limited ones around it come.
unfoldable pub top : Deadline → Deadline
top (root id time) = root id time
top (child time parent) = top parent
top (grace time) = grace time

cleanup-top :
    (deadline : Deadline) (world : World) → cleanup deadline world ≡ cleanup (top deadline) world
unfolding cleanup top
cleanup-top (root id time) world = refl
cleanup-top (child time parent) world = cleanup-top parent world
cleanup-top (grace time) world = refl

cleanup-again :
    (deadline : Deadline) (world later : World)
    → Keeps (cleanup deadline world).1 later
    → (cleanup deadline later).0 ≡ (cleanup deadline world).0
unfolding cleanup
cleanup-again (grace time) world later keeps = refl
cleanup-again (child time parent) world later keeps = cleanup-again parent world later keeps
cleanup-again (root id time) world later keeps = elim (Option-cases (world.graces id)) [
  | inl fresh ↦
      let given = world.now + cleanup_seconds in
      ground (arith, fresh, keeps id given, nat_eq.beq_iff id id)
  | inr (given, known) ↦ ground (arith, known, keeps id given)
]

-- All cleaning up under one deadline has the same grace, however deep the scopes are limited in which
-- it happens: the second time to ask for it gives the deadline of the first.
pub cleanup-shared :
    (first second : Deadline) (world later : World)
    → top first ≡ top second
    → Behaves (cleanup first world).1 later
    → (cleanup second later).0 ≡ (cleanup first world).0
cleanup-shared first second world later same behaves = cc (
  cleanup-top second later,
  cleanup-top first later,
  same,
  cleanup-again first world later behaves.kept,
)
