-- ===== src/Sync.antt =====
-- threadkeeper/sync: replication between nodes by version vectors and last-writer-wins merges.
pub mod Decimal
pub mod Clock
pub mod Table
pub mod Protocol
pub mod Vector
pub mod News
pub mod Capture
pub mod Merge
mod Tests
