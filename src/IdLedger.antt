-- ===== src/IdLedger.antt =====
-- src/httk/store/id_ledger.py: an append-only allocator of entry ids for source keys.
pub mod Errors
pub mod Records
pub mod Validate
pub mod Ledger
pub mod Container
pub mod Bases
pub mod Segments
pub mod Storage
pub mod Tests
