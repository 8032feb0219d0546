-- ===== src/Ipc.antt =====
-- kernel/ipc.c: pipes and message queues.
pub mod Pipe
pub mod Messages
