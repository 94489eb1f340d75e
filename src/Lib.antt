-- ===== src/Lib.antt =====
-- cs594-dcn-f19: the RDMA examples.
--
-- Two groups of C programs over librdmacm and libibverbs are modelled. Paths are from the root of the
-- repository.
--
-- First, examples/the-geek-in-the-corner: three pairs of a client and a server. All three pairs share the
--   set-up of a connection word for word: one global context per process, one queue pair per
--   connection, a thread that hands completions to `on_completion`, and a loop over connection events.
--     Rdma           the set-up (03_file-transfer/rdma-file-transfer/common.c): `build_context`,
--                    `build_qp_attr`, `build_params`, `build_connection`; the memory of a program.
--                    Rdma/Api has the structures of the libraries and the calls, Rdma/Setup and
--                    Rdma/Events what the others share in proofs.
--     Basic          01_basic-client-server: Common (what client.c and server.c share), Client, Server.
--     ReadWrite      02_read-write: Common (rdma-common.c and rdma-common.h), Client (rdma-client.c),
--                    Server (rdma-server.c), and Progress, about the two states of a connection.
--     FileTransfer   03_file-transfer/rdma-file-transfer: Common (the event loop and callbacks of
--                    common.c), Messages (messages.h), Client (client.c), Server (server.c), Loop
--                    (which events are read), and Session, in which the two programs run against
--                    each other.
-- Second, examples/libibverbs-examples: rc_pingpong.c with pingpong.c, and srq_pingpong.c.
--     Pingpong       Api (the calls); of rc_pingpong.c: Options (the command line; Checks has its proofs),
--                    Context (`pp_init_ctx` and `pp_close_ctx`; Resources, Init, Close, Fits and Life have
--                    their proofs), Loop (`pp_post_recv`, `pp_post_send` and `main` from the new
--                    context to the end of its loop; Credit, Finish and Start have its proofs), Connect
--                    (`pp_connect_ctx`; Transitions has its proof), Dest (the message with an
--                    address; RoundTrip), Exchange (`pp_client_exch_dest` and
--                    `pp_server_exch_dest`; Steps, Balance and Listen about what they hold, Learns
--                    and Agreement about what they learn); Nop (`send_nop`); of pingpong.c: Gid (`wire_gid_to_gid`
--                    and `gid_to_wire_gid`).
--     Pingpong/Srq   srq_pingpong.c, with one receive queue for several queue pairs: Options (its command line;
--                    Checks), Context (`pp_init_ctx`, `pp_close_ctx`; Balance, Closing), Connect
--                    (`pp_connect_ctx`), Exchange
--                    (`pp_client_exch_dest`, `pp_server_exch_dest`; Reads, Balance, Client, Server), Loop
--                    (`find_qp`, the requests, the loop of `main`; Requests,
--                    Receives, Sends, Credit, Start, Begin, Search), Main (the end of
--                    `main` with its labels; Keeps, Release).
--
-- A function of the source is a definition of the same name, in the monad of Effects: it takes the
-- memory and the log of all calls into code outside, and returns, or stops by `exit(EXIT_FAILURE)` (or
-- a `return 1` of `main`), by undefined behaviour (`fault`), by waiting for ever (`hung`), or by a `goto` (`jump`)
-- that its caller resolves. A branch
-- of a long function may have a definition of its own. The libraries, the kernel and libc are not in the
-- repository: their answers are the parameters `Verbs` and `Device`, functions of the log, so that
-- theorems hold for every behaviour of theirs, failures at any call included, unless a hypothesis
-- says more. What a peer or the libraries hand to a program (connection events, completions) is an
-- argument, a list. Addresses and handles are natural numbers; 0 is the null pointer. The 32-bit
-- counters `send_state` and `recv_state` wrap around.
--
-- A session (FileTransfer/Session) is bounded by fuel: rounds of one server turn and one client
-- turn, in which a side runs only if the other has posted one request more, the server's for the message of its context,
-- and it has itself posted a receive for that. The bound for a file of `n` bytes is `n + 2` rounds: each chunk has a byte at least, and the name
-- and the end take one each. In srq_pingpong.c (Pingpong/Srq/Exchange) the fuel counts the reads of a
-- message, which has 52 bytes; a program that has used it up is reading for ever.
--
-- Not modelled: texts that are printed, usage messages and the checks of `argc`; the interleaving of
-- the completion thread with the event loop (in 02 what the event thread and the card do to a connection happens
-- between two completions, and the busy wait of `send_message` is a stop if the flag has not been set by then);
-- the wrap-around of `int` counters of completions, which would take 2 ^ 31 of them; what is read behind an array
-- without a NUL, which is a fault; in rc_pingpong.c the choice of a device, the queries of a port and a GID, and the statistics, and
-- the option that calls `send_nop`; in srq_pingpong.c the same; the other programs of
-- examples/libibverbs-examples, which are variants for other transports, exercise vendor extensions or
-- print what the library answers; the scripts that start the experiments.
pub mod Prelude
pub mod Effects
pub mod Rdma
pub mod Basic
pub mod FileTransfer
pub mod ReadWrite
pub mod Pingpong
pub mod Tests
