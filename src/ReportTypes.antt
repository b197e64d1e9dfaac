-- ===== src/ReportTypes.antt =====
-- report-types/: the versions of a report type, from the draft of a flow to its published snapshot.
pub mod Snapshot
pub mod Validation
pub mod Lifecycle
pub mod Publish
pub mod Copies
pub mod Schemas
pub mod Legacy
mod Tests
