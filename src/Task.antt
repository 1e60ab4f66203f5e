-- ===== src/Task.antt =====
-- kernel/task.c: the tasks.
pub mod Ids
pub mod Pids
pub mod Schedule
