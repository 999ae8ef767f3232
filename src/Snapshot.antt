-- ===== src/Snapshot.antt =====
-- The archive of snapshots: src/usagebassoon/snapshot/catalog.py.
pub mod Documents
pub mod Changes
pub mod Reservations
pub mod Commits
pub mod Steps
pub mod Histories
pub mod Ownership
pub mod Records
pub mod Lifecycles
pub mod Rotation
pub mod Retirement
pub mod Accepted
mod Tests
