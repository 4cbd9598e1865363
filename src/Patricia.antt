-- ===== src/Patricia.antt =====
-- src/authenticated_patricia.rs: the content-addressed Patricia index.
pub mod Bits
pub mod Prefix
pub mod Node
pub mod Store
mod Examples
