-- ===== src/Persistence/Attempts.antt =====
-- The retry loop of `persist_with_retries` in src/usagebassoon/persistence.py.
use usagebassoon.Prelude.{
  ℕ, zero, suc, ◌+◌, ◌≤◌, ◌<◌, Bool, true, false, none, some, [], ◌∷◌, length, All, nat_eq, ◌==◌,
  Bool-cases, inl, inr, ◌≡◌, refl, ap, ◌∙◌, arith,
}
use usagebassoon.Persistence.{
  Attempt, persisted, timed_out, backend_failed, open_failed, retryable, Ending, published, raised,
  exhausted, Retried, maximum_delay, max_transaction_retry_ms, after_attempt, attempts_from,
}

-- What one attempt ends the loop with.
unfoldable pub ending_of : {A : Type 0} → Attempt A → Ending A
ending_of (persisted a) = published a
ending_of failure = raised failure

module _ {A : Type 0} (try : ℕ → Attempt A) (jitter : ℕ → ℕ → ℕ) (initial_ms : ℕ) where
  -- The loop has ended with what its last attempt came to, every earlier attempt having failed in a way
  -- that can be retried; the attempts are in the bounds, with one delay between two of them, each at
  -- most 30 seconds.
  abbrev pub IsBounded : ℕ → ℕ → Retried A → Type 0
  IsBounded left earlier r =
      (last : ℕ) × (r.attempts ≡ suc last)
      × (r.ending ≡ ending_of (try last))
      × ((k : ℕ) → earlier ≤ k → k < last → retryable (try k) ≡ true)
      × (earlier ≤ last)
      × (last < earlier + left)
      × (earlier + length r.delays ≡ last)
      × All (λ delay. delay ≤ max_transaction_retry_ms) r.delays

  stopped-IsBounded :
      (left earlier : ℕ) (ending : Ending A)
      → ending ≡ ending_of (try earlier)
      → IsBounded
          (suc left)
          earlier
          (record { ending = ending; attempts = suc earlier; delays = [] })
  stopped-IsBounded left earlier ending ended = (
    earlier,
    refl,
    ended,
    λ k low high. absurd (omega (arith, low, high)),
    omega arith,
    omega arith,
    omega arith,
    tt,
  )

  slept-IsBounded :
      (left earlier delay : ℕ) (rest : Retried A)
      → retryable (try earlier) ≡ true
      → delay ≤ max_transaction_retry_ms
      → IsBounded left (suc earlier) rest
      → IsBounded (suc left) earlier (record rest { delays = delay ∷ rest.delays })
  slept-IsBounded left earlier delay rest failed bound
        (last, count, ending, failures, low, high, slept, delays) =
      (
        last,
        count,
        ending,
        retried,
        omega (arith, low),
        omega (arith, high),
        omega (arith, slept),
        (bound, delays),
      )
    where
      retried : (k : ℕ) → earlier ≤ k → k < last → retryable (try k) ≡ true
      retried k above below = elim (Bool-cases (k == earlier)) [
        | inl same ↦
            let here : k ≡ earlier = ground (arith, nat_eq.beq_iff k earlier, same) in
            rw here failed
        | inr other ↦ failures k (ground (arith, nat_eq.beq_iff k earlier, other, above)) below
      ]

  after_attempt-IsBounded :
      (outcome : Attempt A) (ends : Bool) (left earlier delay : ℕ) (rest : Retried A)
      → try earlier ≡ outcome
      → delay ≤ max_transaction_retry_ms
      → (ends ≡ false → IsBounded left (suc earlier) rest)
      → IsBounded (suc left) earlier (after_attempt outcome ends delay (suc earlier) rest)
  unfolding after_attempt ending_of
  after_attempt-IsBounded (persisted a) ends left earlier delay rest e bound ih =
      stopped-IsBounded left earlier (published a) (rw e refl)
  after_attempt-IsBounded timed_out true left earlier delay rest e bound ih =
      stopped-IsBounded left earlier (raised timed_out) (rw e refl)
  after_attempt-IsBounded timed_out false left earlier delay rest e bound ih =
      slept-IsBounded left earlier delay rest (rw e refl) bound (ih refl)
  after_attempt-IsBounded (backend_failed none) ends left earlier delay rest e bound ih =
      stopped-IsBounded left earlier (raised (backend_failed none)) (rw e refl)
  after_attempt-IsBounded (backend_failed (some false)) ends left earlier delay rest e bound ih =
      stopped-IsBounded left earlier (raised (backend_failed (some false))) (rw e refl)
  after_attempt-IsBounded (backend_failed (some true)) true left earlier delay rest e bound ih =
      stopped-IsBounded left earlier (raised (backend_failed (some true))) (rw e refl)
  after_attempt-IsBounded (backend_failed (some true)) false left earlier delay rest e bound ih =
      slept-IsBounded left earlier delay rest (rw e refl) bound (ih refl)
  after_attempt-IsBounded open_failed ends left earlier delay rest e bound ih =
      stopped-IsBounded left earlier (raised open_failed) (rw e refl)

  -- A failure that can be retried, before the last attempt, leaves the rest to the later attempts.
  after_attempt-retries :
      (outcome : Attempt A) (delay made : ℕ) (rest : Retried A)
      → retryable outcome ≡ true
      → let r = after_attempt outcome false delay made rest in
        (r.ending ≡ rest.ending) × (r.attempts ≡ rest.attempts)
  unfolding after_attempt
  after_attempt-retries (persisted a) delay made rest h = ground arith
  after_attempt-retries timed_out delay made rest h = (refl, refl)
  after_attempt-retries (backend_failed none) delay made rest h = ground arith
  after_attempt-retries (backend_failed (some false)) delay made rest h = ground arith
  after_attempt-retries (backend_failed (some true)) delay made rest h = (refl, refl)
  after_attempt-retries open_failed delay made rest h = ground arith

  -- The maximum of every delay is at most thirty seconds.
  maximum_delay-le : (earlier : ℕ) → maximum_delay initial_ms earlier ≤ max_transaction_retry_ms
  maximum_delay-le earlier = ground arith

  -- With one attempt more than the retries allow, the loop ends with what its last attempt came to, its
  -- result or its error, and every attempt before that failed in a way that can be retried. It makes
  -- between one attempt and that many, sleeps once between two attempts, and never for more than
  -- thirty seconds, if the random delay is at most the maximum that it is given.
  pub attempts_from-IsBounded :
      ((attempt maximum : ℕ) → jitter attempt maximum ≤ maximum)
      → (max_retries earlier : ℕ)
      → IsBounded
          (suc max_retries)
          earlier
          (attempts_from try jitter initial_ms (suc max_retries) earlier)
  unfolding attempts_from
  attempts_from-IsBounded bound zero earlier =
      after_attempt-IsBounded (try earlier) true zero earlier
        (jitter earlier (maximum_delay initial_ms earlier))
        (record { ending = exhausted; attempts = suc earlier; delays = [] }) refl
        (omega (arith, bound earlier (maximum_delay initial_ms earlier), maximum_delay-le earlier))
        (λ e. ground arith)
  attempts_from-IsBounded bound (suc left) earlier =
      after_attempt-IsBounded (try earlier) false (suc left) earlier
        (jitter earlier (maximum_delay initial_ms earlier))
        (attempts_from try jitter initial_ms (suc left) (suc earlier)) refl
        (omega (arith, bound earlier (maximum_delay initial_ms earlier), maximum_delay-le earlier))
        (λ e. attempts_from-IsBounded bound left (suc earlier))

  -- If the attempts before one fail in a way that can be retried, and that one is allowed and
  -- persists the batch, the loop publishes its result and makes no attempt after it.
  pub attempts_from-published :
      (a : A) (n left earlier : ℕ)
      → n < left
      → try (n + earlier) ≡ persisted a
      → ((k : ℕ) → k < n → retryable (try (k + earlier)) ≡ true)
      → let r = attempts_from try jitter initial_ms left earlier in
        (r.ending ≡ published a) × (r.attempts ≡ suc (n + earlier))
  unfolding attempts_from after_attempt
  attempts_from-published a n zero earlier allowed success failures = ground arith
  attempts_from-published a zero (suc left) earlier allowed success failures =
      let here : try earlier ≡ persisted a = ap try (omega arith) ∙ success in
      rw (here, after_attempt) (refl, omega arith)
  attempts_from-published a (suc n) (suc zero) earlier allowed success failures = ground arith
  attempts_from-published a (suc n) (suc (suc left)) earlier allowed success failures =
      let rest = attempts_from try jitter initial_ms (suc left) (suc earlier) in
      let shift : (k : ℕ) → try (k + suc earlier) ≡ try (suc k + earlier) =
        λ k. ap try (omega arith) in
      let later =
        attempts_from-published a n (suc left) (suc earlier) (omega arith) (shift n ∙ success)
          (λ k h. ap retryable (shift k) ∙ failures (suc k) (omega arith)) in
      let now =
        after_attempt-retries (try earlier) (jitter earlier (maximum_delay initial_ms earlier))
          (suc earlier) rest
          (ap (λ k. retryable (try k)) (omega arith) ∙ failures 0 (omega arith)) in
      (now.0 ∙ later.0, omega (arith, now.1, later.1))
