-- ===== src/Lib.antt =====
-- usagebassoon collects the token usage of coding agents from the command `tokscale`, checks it, and
-- publishes it to an analytical store. This library models the core of one collection.
--
-- A run fetches JSON payloads (src/usagebassoon/collector.py). Each payload is compared with its
-- pinned contract (contracts.py) and parsed (parsers/). The daily models are reconciled with their
-- own totals (reconcile.py), and all of it becomes one bundle with a retry ledger (ingest.py). The
-- bundle is turned into tables (normalizer.py), daily token counts are kept from shrinking
-- (storage_model.py), and the batch is published with retries (persistence.py). What a run attempts
-- is selected from the ledger of the earlier ones (orchestrator.py). Beside that runs
-- the checkpoint by which a change of custom pricing has its prices fetched again (collector.py), and
-- the archive of snapshots, which several processes share through one control document
-- (snapshot/catalog.py).
--
-- `Usage`: the parsed records of src/usagebassoon/parsers/.
-- `Report`: `parse_report` and its merge of repeated sessions.
-- `Contract`: `_presence` (Contract.Paths), `build_contract`, `diff_contract`, `validate_payloads`
--   (Contract.Diff) on decoded JSON (Contract.Json).
-- `Reconcile`: `reconcile_all`, one definition for each check and one for a day.
-- `CustomPricing`: `TokscaleProfile` with the checkpoint file as a dictionary of destinations. Each
--   method takes whether its write succeeds and returns the profile and the file that it leaves.
-- `Tokens`: `preserve_daily_tokens` on rows of the table `daily_stats`.
-- `Ingest`: the plans (Ingest.Plan), reports and prices (Ingest.Payloads), the ledger
--   (Ingest.Statuses) and `build_collection_bundle` (Ingest.Bundle).
-- `Normalizer`: fact tables (Normalizer.Facts), ledger, issues and drift (Normalizer.Diagnostics).
-- `Persistence`: `persist_run`, `persist_with_retries`, and `load_ingest_status` on the rows that its
--   query answers (Persistence.Planning).
-- `Orchestrator`: the selection of days, the requests of prices and reports (Orchestrator.Requests),
--   and the prices from the request to the ledger (Orchestrator.Prices).
-- `Collector`: the fetch loops of daily models, prices and reports, with the answers of the command
--   and the clock as arguments.
-- `Snapshot`: the archive of snapshots (snapshot/catalog.py): its documents (Snapshot.Documents), the
--   changes (Snapshot.Changes) and lifecycle operations (Snapshot.Lifecycles), one attempt at a
--   reservation (Snapshot.Reservations), the loops under interference (Snapshot.Commits), histories
--   of writes by several processes (Snapshot.Steps), rotation and deletion (Snapshot.Rotation,
--   Snapshot.Retirement), and the checks of `control` (Snapshot.Accepted).
-- `Archiver`: the obligations that are due when a snapshot is written (`_roles` of archiver.py), on the
--   entries and states of `Snapshot`, and the writing of one snapshot at several destinations with its
--   rollback (`write`, Archiver.Writing), with the answers of each destination as a record.
-- `Recovery`: the choice of a copy to restore (`prepare` of snapshot/reader.py), with the answers of
--   archives and downloads as arguments, and the path of transformations (snapshot/format.py).
-- `Config`: the checks of a decoded configuration file (config.py): plain settings, the sections
--   (Config.Sections, Config.Archives), the whole (Config.Parsing) and the update of one schedule in the
--   lines of the file (`update_schedule_interval`, Config.Schedules), with the amounts of intervals,
--   paths and spinners as a parameter (`Host`).
-- `Deadlines`: nested budgets of time and the grace that they share (deadlines.py).
-- `Queries`: `build_relation_query`, and `validate_read_only_sql` (Queries.ReadOnly), by which a public
--   query is bounded (sql_safety.py).
-- `Prelude`: lists, dictionaries in insertion order, sets whose order is not observed, sorting.
--
-- A dictionary is an association list; a write to a present key keeps its place. A day is an ordinal,
-- a timestamp a number of microseconds, a cost or rate a whole number of 10^-12 units and a delay a
-- number of milliseconds, all natural numbers without an upper bound, as in Python. Every loop is
-- structural recursion, on the collection or on the attempts that are left (eight for a write of the
-- control document, as in the source), so none needs fuel. The
-- digits of a number take one step more than the number, which is at least as many as it has.
-- Parameters stand for pydantic's validation (`Validators`), for the answers of a storage backend
-- (`Destination`), for the host of a configuration (`Host`), for the parser of SQL and for random
-- numbers. What other
-- processes write to the control document while a loop runs is an argument too (`Moment`), as are the
-- clock, new identities, and whether a write raises, before it is made or after (`Pace`).
--
-- Not modelled: processes, files and locks, the database and bucket clients, the command line,
-- scheduling, curation, the discovery and projection of snapshots, their transfers and downloads, and the
-- calls of the parts in turn but for the prices of a collection. Texts for people are the values that
-- they are formatted from.
pub mod Prelude
pub mod Usage
pub mod Report
pub mod CustomPricing
pub mod Reconcile
pub mod Contract
pub mod Tokens
pub mod Ingest
pub mod Normalizer
pub mod Persistence
pub mod Orchestrator
pub mod Collector
pub mod Snapshot
pub mod Archiver
pub mod Recovery
pub mod Deadlines
pub mod Config
pub mod Queries
