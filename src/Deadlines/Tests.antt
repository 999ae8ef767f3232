-- ===== src/Deadlines/Tests.antt =====
-- Scopes as src/usagebassoon/deadlines.py runs them.
use usagebassoon.Prelude.{ℕ, ◌+◌, ◌<◌, none, some, ok, err, ◌≡◌, refl}
use usagebassoon.Deadlines.{
  Deadline, root, child, operation_timeout, World, Body, cleanup, operation, cleanup_budget,
  limited,
}
use usagebassoon.Deadlines.Scopes.{horizon, limited-within, operation-within}
use usagebassoon.Deadlines.Sharing.{Behaves, IsBehaved, top, operation-Behaves, cleanup-shared}

abbrev morning : World
morning = record { now = 100; next = 0; graces = λ id. none; current = none }

-- Work that takes some time and returns it.
abbrev work : ℕ → Body ℕ
work time world = (ok time, record world { now = world.now + time })

work-IsBehaved : IsBehaved (work 40)
work-IsBehaved world = record { restored = refl; kept = λ id given h. h }

-- The inner budget is cut to what the outer one has left.
limited-of-outer : (operation (some 50) (limited 500 (work 60)) morning).0 ≡ err operation_timeout
unfolding operation limited
limited-of-outer = refl

work-in-time : (operation (some 50) (limited 45 (work 40)) morning).0 ≡ ok 40
unfolding operation limited
work-in-time = refl

-- A second cleanup, inside the first or after it, has no grace of its own.
cleanup-of-two :
    (operation (some 50) (λ world. cleanup_budget (cleanup_budget (work 20000)) world) morning).0
    ≡ err operation_timeout
unfolding operation cleanup_budget
cleanup-of-two = refl

inner-in-time : (limited 45 (work 40) morning).0 ≡ ok 40
unfolding limited
inner-in-time = refl

limited-within_example : (limited 45 (work 40) morning).1.now < horizon 45 morning
limited-within_example = limited-within (work 40) 45 morning 40 inner-in-time

operation-within_example : (operation (some 50) (limited 45 (work 40)) morning).1.now < 100 + 50
operation-within_example = operation-within (limited 45 (work 40)) 50 morning 40 work-in-time

operation-Behaves_example : Behaves morning (operation (some 50) (work 40) morning).1
operation-Behaves_example = operation-Behaves (work 40) work-IsBehaved (some 50) morning

abbrev outer : Deadline
outer = root 0 150

abbrev inner : Deadline
inner = child 145 outer

cleanup-shared_example :
    (cleanup inner (record (cleanup outer morning).1 { now = 900 })).0 ≡ (cleanup outer morning).0
unfolding top
cleanup-shared_example =
    cleanup-shared outer inner morning (record (cleanup outer morning).1 { now = 900 }) refl
      (record { restored = refl; kept = λ id given h. h })
