-- ===== src/Deadlines/Scopes.antt =====
-- What a scope of src/usagebassoon/deadlines.py guarantees when it is left.
use usagebassoon.Prelude.{
  ℕ, suc, ◌+◌, ◌-◌, ◌<◌, min, Option, none, some, Option-cases, ok, >>=-eq-ok, ◌≡◌, nat_eq, arith,
  inl, inr,
}
use usagebassoon.Usage.{Time}
use usagebassoon.Deadlines.{
  Deadline, root, child, expires, World, Body, start, remaining, check_time, in_scope,
  operation_deadline, operation, limited,
}

check_time-within :
    (deadline : Deadline) (world : World) (left : ℕ)
    → check_time (some deadline) world ≡ ok left
    → world.now < expires deadline
unfolding check_time remaining
check_time-within deadline world left h = ground (arith, h)

-- The end of a limited scope at the latest.
abbrev pub horizon : ℕ → World → Time
horizon seconds world = elim world.current [
  | none ↦ world.now + seconds
  | some outer ↦ min (world.now + seconds) (expires outer)
]

module _ {ℓ} {A : Type ℓ} (body : Body A) where
  -- A scope that returns a value has looked at the time after its body.
  in_scope-within :
      (deadline : Option Deadline) (last : Deadline) (world : World) (value : A)
      → (in_scope deadline (some last) body world).0 ≡ ok value
      → (in_scope deadline (some last) body world).1.now < expires last
  unfolding in_scope
  in_scope-within deadline last world value h =
      let inside = record world { current = deadline } in
      let (early, _, after) = >>=-eq-ok (body inside).0 _ h in
      let (left, looked, _) = >>=-eq-ok (check_time (some last) (body inside).1) _ after in
      check_time-within last (body inside).1 left looked

  limited-alone :
      (seconds : ℕ) (world : World) (value : A)
      → world.current ≡ none
      → (limited seconds body world).0 ≡ ok value
      → (limited seconds body world).1.now < world.now + seconds
  unfolding limited start
  limited-alone seconds world value alone h =
      let deadline = root world.next (world.now + seconds) in
      let started = record world { next = suc world.next } in
      let within = in_scope-within (some deadline) deadline started value in
      unfold expires in ground (arith, h, alone, within)

  limited-nested :
      (seconds : ℕ) (world : World) (value : A) (outer : Deadline)
      → world.current ≡ some outer
      → (limited seconds body world).0 ≡ ok value
      → (limited seconds body world).1.now < min (world.now + seconds) (expires outer)
  unfolding limited remaining
  limited-nested seconds world value outer inside h =
      let left = expires outer - world.now in
      let deadline = child (min (world.now + min seconds left) (expires outer)) outer in
      let within = in_scope-within (some deadline) deadline world value in
      unfold expires in ground (arith, h, inside, within)

  -- A limited scope that returns a value ends before its own seconds are over, and before the
  -- deadline of the scope around it, whatever its body does.
  pub limited-within :
      (seconds : ℕ) (world : World) (value : A)
      → (limited seconds body world).0 ≡ ok value
      → (limited seconds body world).1.now < horizon seconds world
  limited-within seconds world value h = elim (Option-cases world.current) [
    | inl alone ↦ ground (arith, alone, limited-alone seconds world value alone h)
    | inr (outer, inside) ↦
        ground (arith, inside, limited-nested seconds world value outer inside h)
  ]

  operation-alone :
      (seconds : ℕ) (world : World) (value : A)
      → world.current ≡ none
      → (operation (some seconds) body world).0 ≡ ok value
      → (operation (some seconds) body world).1.now < world.now + seconds
  unfolding operation operation_deadline start
  operation-alone seconds world value alone h =
      let deadline = root world.next (world.now + seconds) in
      let started = record world { next = suc world.next } in
      let within = in_scope-within (some deadline) deadline started value in
      unfold expires in ground (arith, h, alone, within)

  operation-nested :
      (seconds : Option ℕ) (world : World) (value : A) (outer : Deadline)
      → world.current ≡ some outer
      → (operation seconds body world).0 ≡ ok value
      → (operation seconds body world).1.now < expires outer
  unfolding operation operation_deadline
  operation-nested seconds world value outer inside h =
      let within = in_scope-within (some outer) outer world value in
      ground (arith, h, inside, within)

  -- An operation that returns a value ends before the deadline of the operation around it, or before
  -- its own seconds are over if it is the outermost.
  pub operation-within :
      (seconds : ℕ) (world : World) (value : A)
      → (operation (some seconds) body world).0 ≡ ok value
      → (operation (some seconds) body world).1.now
        < (elim world.current [ none ↦ world.now + seconds | some outer ↦ expires outer ])
  operation-within seconds world value h = elim (Option-cases world.current) [
    | inl alone ↦ ground (arith, alone, operation-alone seconds world value alone h)
    | inr (outer, inside) ↦
        ground (arith, inside, operation-nested (some seconds) world value outer inside h)
  ]
