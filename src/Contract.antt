-- ===== src/Contract.antt =====
-- Payload contracts: src/usagebassoon/contracts.py. `Contract.Json` is a decoded payload,
-- `Contract.Paths` the walk that collects typed paths, `Contract.Diff` the comparison with a
-- pinned contract and its aggregation.
pub mod Json
pub mod Paths
pub mod Diff
mod Distinct
pub mod Builds
pub mod Verdict
mod Tests
