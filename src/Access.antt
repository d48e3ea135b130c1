-- ===== src/Access.antt =====
-- threadkeeper/memory_access.py and threadkeeper/project_scope.py: what a process may do with the
-- durable memory, and which rows it may recall.
pub mod Policy
pub mod Scope
pub mod Recall
pub mod Guard
pub mod Limits
mod Tests
