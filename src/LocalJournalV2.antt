-- ===== src/LocalJournalV2.antt =====
-- src/local_journal_v2.rs: the segment whose append cursor is selected by a frontier file.
pub mod Frontier
pub mod Segment
pub mod Writes
pub mod Reads
pub mod Answers
pub mod Suffix
pub mod Journal
pub mod Legacy
mod Examples
