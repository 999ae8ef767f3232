-- ===== src/Normalizer.antt =====
-- src/usagebassoon/normalizer.py: the canonical tables of one run. A table is written column by column
-- there; here it is a list of rows. The random event ids are left out, as are the columns on the
-- host and the versions, which are copied from the bundle.
pub mod Facts
pub mod Diagnostics
pub mod Tables
pub mod Laws
pub mod Tests
