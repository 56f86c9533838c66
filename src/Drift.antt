-- ===== src/Drift.antt =====
-- driftsql/drift/factory.py: databases that drift. A schema diff is carried out on a copy of a
-- database file, and the result of a query is known by its fingerprint.
pub mod Disk
pub mod Identifiers
pub mod Requests
pub mod Materialize
pub mod Fingerprint
pub mod Sample
mod Tests
