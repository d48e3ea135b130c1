-- ===== src/Outcomes.antt =====
-- action_outcomes.py: records of actions and outcomes, and the candidates of recoveries.
pub mod Events
pub mod Forget
pub mod Runs
pub mod Tables
pub mod Revoked
pub mod Sound
pub mod Where
pub mod Erased
pub mod Final
pub mod Identifiers
mod Tests
