-- ===== src/Github.antt =====
-- threadkeeper/github_budget.py: the cooldown that all callers of GitHub share.
pub mod Observe
pub mod Ledger
pub mod Cooldown
pub mod Streak
mod Tests
