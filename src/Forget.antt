-- ===== src/Forget.antt =====
-- forget.py: the erasure of a session, a thread, a message or an objective.
pub mod Claims
pub mod Ends
pub mod Keyed
pub mod Closure
pub mod Round
pub mod Targets
pub mod Exact
pub mod Plan
pub mod Apply
pub mod Erased
pub mod Left
pub mod Selected
mod Tests
