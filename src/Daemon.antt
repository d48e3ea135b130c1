-- ===== src/Daemon.antt =====
-- threadkeeper/daemon_state.py: the persisted cadence of the daemons.
pub mod State
pub mod Cadence
mod Tests
