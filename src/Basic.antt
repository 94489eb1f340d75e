-- ===== src/Basic.antt =====
-- examples/the-geek-in-the-corner/01_basic-client-server: a client and a server that exchange one
-- message each.
pub mod Common
pub mod Client
pub mod Server
