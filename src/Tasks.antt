-- ===== src/Tasks.antt =====
-- threadkeeper/mcp_tasks.py: the durable handles of headless children, with their status machine.
pub mod Handle
pub mod Terminal
mod Tests
