-- ===== src/Pingpong/Srq.antt =====
-- examples/libibverbs-examples/srq_pingpong.c: a ping-pong over several queue pairs, which share one receive queue.
pub mod Context
pub mod Loop
pub mod Main
pub mod Connect
pub mod Exchange
pub mod Options
