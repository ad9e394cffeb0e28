-- ===== src/Snapshot.antt =====
-- The operational snapshot of app/operational_snapshot.py.
pub mod Grouping
pub mod Percentile
pub mod Sections
pub mod Measurements
pub mod Reader
pub mod Counts
pub mod Health
