-- ===== src/Orchestrator.antt =====
-- The selection of days in src/usagebassoon/orchestrator.py: the range that `collect` accepts, and
-- the days of daily models that `_collect_locked` attempts.
pub mod Days
pub mod Tests
pub mod Requests
pub mod Prices
use usagebassoon.Prelude.{
  ℕ, zero, suc, ◌+◌, ◌-◌, min, String, Bool, true, false, Option, none, some, List, [], ◌∷◌, ◌++◌,
  ◌&&◌, ◌||◌, not, ◌==◌, if◌then◌else◌, ltb, leb, length, select, is_some, or_else, Dict, keys,
  contains, union, to_set, sorted, map, Result, ok, err, nat_eq, string_eq, pair_eq, nat_ord,
}
use usagebassoon.Usage.{Day, Contribution}
use usagebassoon.Ingest.Statuses.{IngestTarget, IngestStatus}

pub data RangeError : Type 0 where
  reversed_bounds future_bound bounds_without_refresh : RangeError

-- The days of a refresh: the first one, if it is given, and the last one.
abbrev pub RefreshRange : Type 0
RefreshRange = Option Day × Day

-- The checks of `collect`.
pub refresh_range : Bool → Option Day → Option Day → Day → Result RangeError (Option RefreshRange)
refresh_range true since until today =
    let last = or_else until today in
    if ltb last (or_else since 0) && is_some since
    then err reversed_bounds
    else if ltb today last
    then err future_bound
    else ok (some (since, last))
refresh_range false none none today = ok none
refresh_range false _ _ today = err bounds_without_refresh

-- `xs[-n:]` for a positive `n`
abbrev drop : {A : Type 0} → ℕ → List A → List A
drop zero xs = xs
drop (suc n) [] = []
drop (suc n) (x ∷ xs) = drop n xs

abbrev last_of : {A : Type 0} → ℕ → List A → List A
last_of n xs = drop (length xs - n) xs

abbrev historical_overlap_days : ℕ
historical_overlap_days = 3

-- `historical_overlap`: the last days of the graph before today.
pub historical_overlap : Day → List Day → List Day
historical_overlap today candidates =
    to_set (last_of historical_overlap_days (sorted (select (λ day. ltb day today) candidates)))

abbrev pub Statuses : Type 0
Statuses = Dict IngestTarget IngestStatus

-- `completed`
pub completed : Statuses → List IngestTarget
completed [] = []
completed ((target, status) ∷ rest) =
    let others = completed rest in if status.status == "complete" then target ∷ others else others

-- The days of daily models whose last status is not complete.
pub retry_days : Statuses → List Day
retry_days [] = []
retry_days (((day, domain), status) ∷ rest) =
    let others = retry_days rest in
    if (domain == "models") && not (status.status == "complete") then day ∷ others else others

-- The days of daily models that have a status at all.
models_days : List IngestTarget → List Day
models_days [] = []
models_days ((day, domain) ∷ rest) =
    let others = models_days rest in if domain == "models" then day ∷ others else others

-- `since + offset` for every offset below the count
pub days_from : Day → ℕ → List Day
days_from since zero = []
days_from since (suc count) = since ∷ days_from (suc since) count

-- `min((day for day in history if day <= until), default=until)`
earliest : Day → List Day → Day
earliest until [] = until
earliest until (day ∷ history) =
    let first = earliest until history in if leb day until then min day first else first

-- The days and the contributions that a run works on.
pub record SelectedDays : Type 0 where
  pub candidate_days : List Day
  pub contributions : List Contribution
  pub daily_days : List Day

-- The candidates without a refresh.
pub candidate_days : Statuses → List Day → List Day
unfolding retry_days
candidate_days statuses graph_days = sorted (to_set (graph_days ++ retry_days statuses))

-- The first day of a refresh: the one that is given, or the first in the history.
pub first_day : Statuses → List Day → List Day → RefreshRange → Day
unfolding models_days earliest
first_day statuses graph_days persisted (some since, until) = since
first_day statuses graph_days persisted (none, until) =
    earliest until (graph_days ++ persisted ++ models_days (keys statuses))

-- Whether a candidate is attempted in a run without a refresh.
pub is_attempted : Day → List Day → List IngestTarget → Day → Bool
is_attempted today overlap complete day =
    leb today day || contains overlap day || not (contains complete (day, "models"))

-- The selection in `_collect_locked`; `persisted` are the days with persisted models.
pub select_days :
    Day → Statuses → List Day → List Contribution → List Day → Option RefreshRange → SelectedDays
unfolding historical_overlap completed candidate_days first_day days_from is_attempted
select_days today statuses graph_days contributions persisted none =
    let candidates = candidate_days statuses graph_days in
    record {
      candidate_days = candidates;
      contributions = contributions;
      daily_days =
          select (is_attempted today (historical_overlap today graph_days) (completed statuses))
            candidates;
    }
select_days today statuses graph_days contributions persisted (some range) =
    let since = first_day statuses graph_days persisted range in
    let days = days_from since (suc range.1 - since) in
    record {
      candidate_days = days;
      contributions = select (λ item. leb since item.date && leb item.date range.1) contributions;
      daily_days = days;
    }
