-- ===== src/Tests.antt =====
-- The theorems at concrete inputs.
mod Library
mod FileTransfer
mod ReadWrite
mod Basic
mod Pingpong
mod Exchange
mod Srq
mod SrqExchange
