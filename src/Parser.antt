-- ===== src/Parser.antt =====
-- parser.go: from log lines to records.
pub mod Patterns
pub mod Extract
pub mod Disposition
pub mod Verdict
pub mod Timeline
pub mod NoQueue
pub mod Lines
