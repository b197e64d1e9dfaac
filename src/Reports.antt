-- ===== src/Reports.antt =====
-- reports/: the reports of an analysis, what a run writes on them, and the bound on what is written.
pub mod Payload
mod Tests
pub mod Update
pub mod View
pub mod Actions
