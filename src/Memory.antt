-- ===== src/Memory.antt =====
-- threadkeeper/memory_guard.py: which server acts for all, and which idle servers it retires.
pub mod Guard
pub mod Health
pub mod Coordinator
pub mod Sorting
pub mod Retire
pub mod Cleanup
mod Tests
