-- ===== src/Db.antt =====
-- core/db: the tips table, the reconciliation cursor and the operations on them.
pub mod Schema
pub mod Operations
pub mod Find
pub mod Valid
mod Count
pub mod Trace
pub mod Money
pub mod Keeps
pub mod Push
pub mod Sequence
pub mod Purge
pub mod Replay
pub mod Rising
pub mod Ledger
pub mod Refines
mod Tests
