-- ===== src/Deadlines.antt =====
-- The budgets of src/usagebassoon/deadlines.py: `Deadline`, and the scopes that share one. A time is a
-- number of milliseconds of the monotonic clock, which goes on while the body of a scope runs.
mod Scopes
mod Sharing
mod Tests
use usagebassoon.Prelude.{
  ℕ, suc, ◌+◌, ◌-◌, min, String, Bool, true, false, Option, none, some, leb, ◌==◌, nat_eq, or_else,
  if◌then◌else◌, Result, ok, err, ◌>>=◌,
}
use usagebassoon.Usage.{Time}

abbrev pub cleanup_seconds : ℕ
cleanup_seconds = 15000

abbrev pub request_seconds : ℕ
request_seconds = 30000

-- A deadline: one that was started alone, with its identity; one with a parent; and the grace for
-- cleaning up, whose own cleanup it is itself.
pub data Deadline : Type 0 where
  root : ℕ → Time → Deadline
  child : Time → Deadline → Deadline
  grace : Time → Deadline

pub expires : Deadline → Time
expires (root id time) = time
expires (child time parent) = time
expires (grace time) = time

pub data Error : Type 0 where
  operation_timeout : Error
  invalid_seconds : Error
  raised : String → Error

-- The clock, the identities that are given out, the grace of each deadline without a parent, and the
-- deadline of the scope.
pub record World : Type 0 where
  pub now : Time
  pub next : ℕ
  pub graces : ℕ → Option Time
  pub current : Option Deadline

-- The work of a scope, with what it returns or raises.
abbrev pub Body {ℓ} : Type ℓ → Type ℓ
Body A = World → Result Error A × World

-- `Deadline(seconds)`
pub start : ℕ → World → Result Error Deadline × World
start seconds world =
    if seconds == 0
    then (err invalid_seconds, world)
    else (ok (root world.next (world.now + seconds)), record world { next = suc world.next })

-- `Deadline.remaining`
pub remaining : Deadline → Option ℕ → World → Result Error ℕ
unfolding expires
remaining deadline cap world =
    let left = expires deadline - world.now in
    if leb (expires deadline) world.now
    then err operation_timeout
    else ok (elim cap [ none ↦ left | some most ↦ min most left ])

-- `Deadline.cleanup`
pub cleanup : Deadline → World → Deadline × World
cleanup (grace time) world = (grace time, world)
cleanup (child time parent) world = cleanup parent world
cleanup (root id time) world = elim (world.graces id) [
  | some given ↦ (grace given, world)
  | none ↦
      let given = world.now + cleanup_seconds in
      (
        grace given,
        record world { graces = λ other. if other == id then some given else world.graces other },
      )
]

-- `remaining_seconds`
pub remaining_seconds : Option ℕ → World → Result Error ℕ
unfolding remaining
remaining_seconds cap world = elim world.current [
  | none ↦ ok (or_else cap request_seconds)
  | some deadline ↦ remaining deadline cap world
]

-- `deadline.remaining()` where there may be no deadline.
check_time : Option Deadline → World → Result Error ℕ
unfolding remaining
check_time none world = ok 0
check_time (some deadline) world = remaining deadline none world

-- A body in the scope of a deadline, with a last look at the time after it returns if `checked_after`
-- says so. The deadline of the scope around is set again on every path.
in_scope {ℓ} :
    {A : Type ℓ} → Option Deadline → Option Deadline → Body A → World → Result Error A × World
unfolding check_time
in_scope deadline checked_after body world =
    let (result, after) = body (record world { current = deadline }) in
    (
      result >>= λ value. check_time checked_after after >>= λ left. ok value,
      record after { current = world.current },
    )

-- The deadline of `operation`: that of the scope around, or a new one, or none.
operation_deadline : Option ℕ → World → Result Error (Option Deadline) × World
unfolding start
operation_deadline seconds world = elim world.current [
  | some existing ↦ (ok (some existing), world)
  | none ↦ elim seconds [
    | none ↦ (ok none, world)
    | some budget ↦
        let (started, after) = start budget world in
        (started >>= λ deadline. ok (some deadline), after)
  ]
]

-- `operation`
pub operation {ℓ} : {A : Type ℓ} → Option ℕ → Body A → Body A
unfolding operation_deadline check_time in_scope
operation seconds body world =
    let (chosen, after) = operation_deadline seconds world in
    elim chosen [
      | err e ↦ (err e, after)
      | ok deadline ↦ elim (check_time deadline after) [
        | err e ↦ (err e, after)
        | ok left ↦ in_scope deadline deadline body after
      ]
    ]

-- `cleanup_budget`
pub cleanup_budget {ℓ} : {A : Type ℓ} → Body A → Body A
unfolding cleanup start in_scope
cleanup_budget body world = elim world.current [
  | some parent ↦
      let (deadline, after) = cleanup parent world in in_scope (some deadline) none body after
  | none ↦
      let (started, after) = start cleanup_seconds world in
      elim started [
        | err e ↦ (err e, after)
        | ok deadline ↦ in_scope (some deadline) none body after
      ]
]

-- `limited`
pub limited {ℓ} : {A : Type ℓ} → ℕ → Body A → Body A
unfolding start remaining expires in_scope
limited seconds body world =
    if seconds == 0 then (err operation_timeout, world) else elim world.current [
      | none ↦
          let (started, after) = start seconds world in
          elim started [
            | err e ↦ (err e, after)
            | ok deadline ↦ in_scope (some deadline) (some deadline) body after
          ]
      | some parent ↦ elim (remaining parent none world) [
        | err e ↦ (err e, world)
        | ok left ↦
            let deadline = child (min (world.now + min seconds left) (expires parent)) parent in
            in_scope (some deadline) (some deadline) body world
      ]
    ]

-- `bounded`, for a method of an owner with the given budget.
pub bounded {ℓ} : {A : Type ℓ} → ℕ → Body A → Body A
unfolding operation
bounded timeout_seconds method = operation (some timeout_seconds) method

-- `checked`
pub checked {ℓ} : {A : Type ℓ} → Body A → Body A
unfolding remaining_seconds
checked method world = elim (remaining_seconds (some request_seconds) world) [
  | err e ↦ (err e, world)
  | ok left ↦
      let (result, after) = method world in
      (
        result >>= λ value. remaining_seconds (some request_seconds) after >>= λ rest. ok value,
        after,
      )
]
