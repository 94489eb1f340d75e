-- ===== src/FileTransfer.antt =====
-- The file transfer of examples/the-geek-in-the-corner/03_file-transfer.
pub mod Common
pub mod Messages
pub mod Server
pub mod Client
pub mod Session
pub mod Loop
