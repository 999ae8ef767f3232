-- ===== src/Collector/DailyModels.antt =====
-- What `_fetch_daily_models` of src/usagebassoon/collector.py makes of every day.
use usagebassoon.Prelude.{
  String, Bool, true, Option, none, some, List, [], ◌∷◌, nat_eq, string_eq, pair_eq, nat_ord,
  string_ord, all, contains, lookup-insert, Dict, lookup, insert, if◌then◌else◌, ok, err, ◌>>=◌,
  ◌≡◌, refl, ◌∙◌, arith, Result-cases, inl, inr,
}
use usagebassoon.Usage.{Day}
use usagebassoon.Contract.Json.{Json}
use usagebassoon.Collector.{
  CommandError, Answer, require_object, is_tracked, DailyFetch, fetch_daily_models,
}

-- A payload, if the answer is one.
pub delivered : Answer → Option Json → Option Json
delivered (ok payload) before = some payload
delivered (err e) before = before

-- A failure, if the answer is one.
pub missed : Answer → Option String → Option String
missed (ok payload) before = before
missed (err e) before = some "fetch"

-- A payload, or an error of a class that the loop records.
unfoldable pub is_settled : Answer → Bool
unfolding is_tracked
is_settled (ok payload) = true
is_settled (err e) = is_tracked e

abbrev pub object_answer : (Day → Answer) → Day → Answer
object_answer ask day = ask day >>= require_object

module _ (ask : Day → Answer) (day : Day) (days : List Day) where
  all-tail :
      all (λ d. is_settled (object_answer ask d)) (day ∷ days) ≡ true
      → all (λ d. is_settled (object_answer ask d)) days ≡ true
  all-tail settled = ground (arith, settled)

  settled-tracked :
      (e : CommandError)
      → all (λ d. is_settled (object_answer ask d)) (day ∷ days) ≡ true
      → object_answer ask day ≡ err e
      → is_tracked e ≡ true
  unfolding is_settled
  settled-tracked e settled failed = ground (arith, settled, failed)

module _ (ask : Day → Answer) (day : Day) (days : List Day) (fetched : DailyFetch) where
  fetch_delivered :
      (payload : Json)
      → object_answer ask day ≡ ok payload
      → fetch_daily_models ask (day ∷ days) fetched
        ≡ fetch_daily_models ask days
            (record fetched { payloads = insert day payload fetched.payloads })
  unfolding fetch_daily_models
  fetch_delivered payload e = rw (e, fetch_daily_models) refl

  fetch_missed :
      (e : CommandError)
      → object_answer ask day ≡ err e
      → is_tracked e ≡ true
      → fetch_daily_models ask (day ∷ days) fetched
        ≡ fetch_daily_models ask days
            (record fetched { failures = insert day "fetch" fetched.failures })
  unfolding fetch_daily_models
  fetch_missed e failed tracked = rw (failed, tracked, fetch_daily_models) refl

-- What the loop leaves under a day, after the days that it has gone through.
module _ (ask : Day → Answer) (d : Day) where
  after_days : List Day → Dict Day Json → Option Json
  after_days days before =
      if contains days d then delivered (object_answer ask d) (lookup d before) else lookup d before

  after_failures : List Day → Dict Day String → Option String
  after_failures days before =
      if contains days d then missed (object_answer ask d) (lookup d before) else lookup d before

  after_days-insert :
      (day : Day) (days : List Day) (payload : Json) (before : Dict Day Json)
      → object_answer ask day ≡ ok payload
      → after_days days (insert day payload before) ≡ after_days (day ∷ days) before
  unfolding after_days contains delivered
  after_days-insert day days payload before e =
      ground (arith, lookup-insert day d payload before, nat_eq.beq_iff day d, e)

  after_days-skip :
      (day : Day) (days : List Day) (e : CommandError) (before : Dict Day Json)
      → object_answer ask day ≡ err e
      → after_days days before ≡ after_days (day ∷ days) before
  unfolding after_days contains delivered
  after_days-skip day days e before failed = ground (arith, nat_eq.beq_iff day d, failed)

  after_failures-insert :
      (day : Day) (days : List Day) (e : CommandError) (before : Dict Day String)
      → object_answer ask day ≡ err e
      → after_failures days (insert day "fetch" before) ≡ after_failures (day ∷ days) before
  unfolding after_failures contains missed
  after_failures-insert day days e before failed =
      ground (arith, lookup-insert day d "fetch" before, nat_eq.beq_iff day d, failed)

  after_failures-skip :
      (day : Day) (days : List Day) (payload : Json) (before : Dict Day String)
      → object_answer ask day ≡ ok payload
      → after_failures days before ≡ after_failures (day ∷ days) before
  unfolding after_failures contains missed
  after_failures-skip day days payload before e = ground (arith, nat_eq.beq_iff day d, e)

  fetch_daily_models-after :
      (days : List Day) (fetched : DailyFetch)
      → all (λ day. is_settled (object_answer ask day)) days ≡ true
      → (r : DailyFetch) × (fetch_daily_models ask days fetched ≡ ok r)
        × (lookup d r.payloads ≡ after_days days fetched.payloads)
        × (lookup d r.failures ≡ after_failures days fetched.failures)
  fetch_daily_models-after [] fetched settled = (
    fetched,
    unfold fetch_daily_models in refl,
    unfold after_days contains in refl,
    unfold after_failures contains in refl,
  )
  fetch_daily_models-after (day ∷ days) fetched settled =
      elim (Result-cases (object_answer ask day)) [
        | inl (e, failed) ↦
            let next : DailyFetch = record fetched {
              failures = insert day "fetch" fetched.failures;
            } in
            let (r, found, payloads, failures) =
              fetch_daily_models-after days next (all-tail ask day days settled) in
            (
              r,
              fetch_missed ask day days fetched e failed
                    (settled-tracked ask day days e settled failed)
                  ∙ found,
              payloads ∙ after_days-skip day days e fetched.payloads failed,
              failures ∙ after_failures-insert day days e fetched.failures failed,
            )
        | inr (payload, answered) ↦
            let next : DailyFetch = record fetched {
              payloads = insert day payload fetched.payloads;
            } in
            let (r, found, payloads, failures) =
              fetch_daily_models-after days next (all-tail ask day days settled) in
            (
              r,
              fetch_delivered ask day days fetched payload answered ∙ found,
              payloads ∙ after_days-insert day days payload fetched.payloads answered,
              failures ∙ after_failures-skip day days payload fetched.failures answered,
            )
      ]

-- If every answer is a payload or an error that the loop records, the fetch returns, and each
-- requested day has either the payload that its command answered or a recorded failure.
pub fetch_daily_models-outcome :
    (ask : Day → Answer) (days : List Day) (d : Day)
    → all (λ day. is_settled (object_answer ask day)) days ≡ true
    → contains days d ≡ true
    → (r : DailyFetch) × (fetch_daily_models ask days (record { payloads = []; failures = [] })
        ≡ ok r)
      × (lookup d r.payloads ≡ delivered (object_answer ask d) none)
      × (lookup d r.failures ≡ missed (object_answer ask d) none)
unfolding after_days after_failures lookup
fetch_daily_models-outcome ask days d settled requested =
    let (r, found, payloads, failures) =
      fetch_daily_models-after ask d days (record { payloads = []; failures = [] }) settled in
    (r, found, ground (arith, payloads, requested), ground (arith, failures, requested))
