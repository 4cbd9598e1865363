-- ===== src/LocalJournal.antt =====
-- src/local_journal.rs: the append-only journal segment of one device, its frames and its recovery.
pub mod Errors
pub mod Frame
pub mod Reader
pub mod Segment
mod Examples
