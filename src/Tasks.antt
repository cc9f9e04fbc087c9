-- ===== src/Tasks.antt =====
-- The background tasks of src/aduib_rpc/server/tasks.
pub mod Types
pub mod Manager
