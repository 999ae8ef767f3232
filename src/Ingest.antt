-- ===== src/Ingest.antt =====
-- Ingest: src/usagebassoon/ingest.py. `Ingest.Plan` validates and parses the graph and the daily
-- models, `Ingest.Payloads` the reports and the prices, `Ingest.Statuses` builds the retry ledger,
-- and `Ingest.Bundle` puts them together as `build_collection_bundle` does.
pub mod Plan
pub mod Payloads
pub mod Statuses
pub mod Bundle
pub mod Balanced
pub mod Completed
pub mod Ledger
pub mod Failures
pub mod Resolution
pub mod Tests
