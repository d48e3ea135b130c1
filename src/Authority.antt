-- ===== src/Authority.antt =====
-- threadkeeper/authority.py: the provenance of durable memory and the gate for consequential use.
pub mod Store
pub mod Stamp
pub mod Source
pub mod Gate
pub mod Invalidate
pub mod Invariant
pub mod Roots
pub mod Derive
pub mod Weakest
pub mod History
pub mod Decisions
pub mod Closed
pub mod Derivations
pub mod Dead
mod Tests
