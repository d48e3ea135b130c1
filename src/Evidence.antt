-- ===== src/Evidence.antt =====
-- threadkeeper/evidence.py: short-lived references to memory, bound to a caller.
pub mod Registry
pub mod Held
pub mod Live
mod Tests
