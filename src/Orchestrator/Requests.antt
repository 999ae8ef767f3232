-- ===== src/Orchestrator/Requests.antt =====
-- The prices and reports that `_collect_locked` of src/usagebassoon/orchestrator.py requests.
use usagebassoon.Prelude.{
  String, Bool, true, false, Option, none, some, List, [], ◌∷◌, ◌++◌, ◌&&◌, ◌||◌, not, ◌==◌,
  if◌then◌else◌, is_empty, is_some, any, select, concat_map, or_else, Dict, lookup, insert,
  lookup-insert, keys, values, contains, union, difference, inter, to_set, sorted, contains-union,
  contains-inter, Bool-cases, inl, inr, Eq, string_eq, nat_eq, pair_eq, nat_ord, ◌≡◌, refl, arith,
}
use usagebassoon.Usage.{Day, Time, day_of}
use usagebassoon.Ingest.Statuses.{IngestTarget, IngestStatus, SessionIdentity}
use usagebassoon.Orchestrator.{Statuses, RefreshRange}

-- A dictionary of models by day.
abbrev pub ModelsByDay : Type 0
ModelsByDay = Dict Day (List String)

abbrev pub models_on : Day → ModelsByDay → List String
models_on day d = or_else (lookup day d) []

-- `{model for models in d.values() for model in models}`
abbrev all_models : ModelsByDay → List String
all_models d = to_set (concat_map (λ models. models) (values d))

needed_models : ModelsByDay → ModelsByDay → ModelsByDay → List String
needed_models active persisted_models persisted_prices =
    union (all_models active)
      (difference (all_models persisted_models) (all_models persisted_prices))

-- The models whose prices are requested on the observation day.
unfoldable pub price_requests : Day → List String → ModelsByDay → List String → List String
price_requests observation_day needed persisted_prices refresh =
    union (difference needed (models_on observation_day persisted_prices)) refresh

-- `expected_prices[day] = expected_prices.get(day, frozenset()) | models`
unfoldable pub add_expected : Day → List String → ModelsByDay → ModelsByDay
add_expected day models expected = insert day (union (models_on day expected) models) expected

unfoldable pub add_failed : ModelsByDay → ModelsByDay → ModelsByDay
unfolding add_expected
add_failed [] expected = expected
add_failed ((day, models) ∷ failures) expected =
    add_failed failures (add_expected day models expected)

-- `{day: frozenset(set(prices) | set(pricing_failures.get(day, ())))}` over the fetched prices
unfoldable pub fetched_prices : ModelsByDay → ModelsByDay → ModelsByDay
fetched_prices failures [] = []
fetched_prices failures ((day, models) ∷ fetched) =
    (day, union models (models_on day failures)) ∷ fetched_prices failures fetched

unfoldable pub expected_prices :
    Day → List String → ModelsByDay → ModelsByDay → ModelsByDay → ModelsByDay
unfolding add_failed fetched_prices
expected_prices observation_day needed persisted_prices fetched failures =
    let expected = add_failed failures (fetched_prices failures fetched) in
    let already_observed = inter needed (models_on observation_day persisted_prices) in
    if is_empty already_observed
    then expected
    else add_expected observation_day already_observed expected

-- `ReportInventory` of src/usagebassoon/ingest.py
pub record ReportInventory : Type 0 where
  pub sessions : Dict SessionIdentity (Option Time)
  pub missing : List SessionIdentity

pub missing_sessions : List SessionIdentity → ReportInventory → List SessionIdentity
missing_sessions active inventory =
    union (difference active (keys inventory.sessions)) inventory.missing

-- The active sessions that the inventory has without a time of creation.
abbrev is_unknown : ReportInventory → SessionIdentity → Bool
is_unknown inventory identity = elim (lookup identity inventory.sessions) [
  | none ↦ false
  | some created ↦ not (is_some created)
]

-- `discovered`
abbrev is_discovery : IngestTarget × IngestStatus → Bool
is_discovery ((day, domain), status) =
    (domain == "report_inventory") && (status.status == "complete")

is_full_report : List SessionIdentity → ReportInventory → Statuses → Option RefreshRange → Bool
unfolding missing_sessions
is_full_report active inventory statuses range =
    not (any is_discovery statuses)
    || not (
        is_empty (union (missing_sessions active inventory) (select (is_unknown inventory) active)))
    || elim range [ none ↦ false | some bounds ↦ not (is_some bounds.0) ]

-- The days on which active sessions were created.
created_days : List SessionIdentity → Dict SessionIdentity (Option Time) → List Day
created_days active [] = []
created_days active ((identity, created) ∷ sessions) =
    let days = created_days active sessions in
    elim created [
      | none ↦ days
      | some time ↦ if contains active identity then day_of time ∷ days else days
    ]

retry_reports : Statuses → List Day
retry_reports [] = []
retry_reports (((day, domain), status) ∷ rest) =
    let days = retry_reports rest in
    if (domain == "report") && not (status.status == "complete") then day ∷ days else days

pub report_days : List SessionIdentity → ReportInventory → Statuses → List Day
unfolding created_days retry_reports
report_days active inventory statuses =
    sorted (to_set (created_days active inventory.sessions ++ retry_reports statuses))

contains-add_expected :
    (day : Day) (models : List String) (expected : ModelsByDay) (d : Day) (m : String)
    → contains (models_on d (add_expected day models expected)) m
      ≡ (contains (models_on d expected) m || ((day == d) && contains models m))
unfolding add_expected
contains-add_expected day models expected d m =
    let both = union (models_on day expected) models in
    ground (
      arith,
      lookup-insert day d both expected,
      contains-union (models_on day expected) models m,
      nat_eq.beq_iff day d,
    )

contains-add_failed :
    (failures expected : ModelsByDay) (d : Day) (m : String)
    → contains (models_on d (add_failed failures expected)) m ≡ (
        contains (models_on d expected) m
        || any (λ entry. (entry.0 == d) && contains entry.1 m) failures)
unfolding add_failed
contains-add_failed [] expected d m = ground arith
contains-add_failed ((day, models) ∷ failures) expected d m = ground (
  arith,
  contains-add_failed failures (add_expected day models expected) d m,
  contains-add_expected day models expected d m,
)

any-models_on :
    (failures : ModelsByDay) (d : Day) (m : String)
    → contains (models_on d failures) m ≡ true
    → any (λ entry. (entry.0 == d) && contains entry.1 m) failures ≡ true
unfolding lookup contains
any-models_on [] d m h = ground arith
any-models_on ((day, models) ∷ failures) d m h = ground (arith, any-models_on failures d m)

contains-fetched_prices :
    (failures fetched : ModelsByDay) (d : Day) (m : String)
    → contains (models_on d fetched) m ≡ true
    → contains (models_on d (fetched_prices failures fetched)) m ≡ true
unfolding fetched_prices lookup
contains-fetched_prices failures [] d m h = h
contains-fetched_prices failures ((day, models) ∷ fetched) d m h = ground (
  arith,
  contains-fetched_prices failures fetched d m,
  contains-union models (models_on day failures) m,
)

-- A collection with a member is not empty.
pub nonempty {ℓ} :
    {A : Type ℓ} ⦃test : Eq A⦄ (xs : List A) (x : A) → contains xs x ≡ true → is_empty xs ≡ false
unfolding contains
nonempty [] x h = ground arith
nonempty (y ∷ xs) x h = refl

-- No outcome of a price is forgotten: a model whose price was fetched for a day, or failed for it,
-- or is needed and was already stored on the observation day, is expected on that day.
expected_prices-covers :
    (observation_day : Day) (needed : List String) (persisted_prices fetched failures : ModelsByDay)
    (d : Day) (m : String)
    → contains (models_on d fetched) m
        || contains (models_on d failures) m
        || ((observation_day == d)
            && (contains needed m && contains (models_on observation_day persisted_prices) m))
      ≡ true
    → contains
        (models_on d (expected_prices observation_day needed persisted_prices fetched failures))
        m
      ≡ true
unfolding expected_prices
expected_prices-covers observation_day needed persisted_prices fetched failures d m h =
    let already = inter needed (models_on observation_day persisted_prices) in
    let base = fetched_prices failures fetched in
    elim (Bool-cases (is_empty already)) [
      | inl nothing ↦ rw nothing (
          ground (
            arith,
            contains-add_failed failures base d m,
            contains-fetched_prices failures fetched d m,
            any-models_on failures d m,
            contains-inter needed (models_on observation_day persisted_prices) m,
            nonempty already m,
            h,
            nothing,
          ))
      | inr observed ↦ rw observed (
          ground (
            arith,
            contains-add_expected observation_day already (add_failed failures base) d m,
            contains-add_failed failures base d m,
            contains-fetched_prices failures fetched d m,
            any-models_on failures d m,
            contains-inter needed (models_on observation_day persisted_prices) m,
            h,
          ))
    ]
