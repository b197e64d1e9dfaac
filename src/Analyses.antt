-- ===== src/Analyses.antt =====
-- analyses/: the runs of an analysis as jobs of a queue, and the service that starts them.
pub mod Payloads
pub mod Processor
pub mod Service
pub mod System
mod Tests
