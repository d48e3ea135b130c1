-- ===== src/Router.antt =====
-- threadkeeper/model_router.py, threadkeeper/model_routes.py and threadkeeper/tools/model_router.py:
-- the weekly choice of a model for each role.
pub mod Routes
pub mod Decisions
pub mod Roles
pub mod Accepted
pub mod Tick
pub mod Runs
pub mod Attempts
pub mod Counted
pub mod Launches
pub mod Recorded
pub mod Latest
pub mod Single
pub mod Backoff
mod Tests
