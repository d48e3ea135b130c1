-- ===== src/Spawn.antt =====
-- threadkeeper/spawn_budget.py: admission and supervision of spawned children.
pub mod Budget
pub mod Admission
pub mod Watchdog
pub mod Caps
pub mod Tree
pub mod Walk
mod Tests
