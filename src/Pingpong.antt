-- ===== src/Pingpong.antt =====
-- The ping-pong programs of examples/libibverbs-examples.
pub mod Api
pub mod Context
pub mod Loop
pub mod Gid
pub mod Dest
pub mod Connect
pub mod Exchange
pub mod Options
pub mod Srq
pub mod Nop
