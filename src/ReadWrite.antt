-- ===== src/ReadWrite.antt =====
-- The one-sided transfer of examples/the-geek-in-the-corner/02_read-write.
pub mod Common
pub mod Client
pub mod Server
pub mod Progress
