-- ===== src/Tests/ReadWrite.antt =====
-- A connection of 02_read-write in two of its states.
use cs594_dcn_f.Prelude.{ℕ, ◌≤◌, refl, true, some, none, List, [], ◌∷◌, arith}
use cs594_dcn_f.Effects.{World, Ends, final}
use cs594_dcn_f.Rdma.{Call, Wc}
use cs594_dcn_f.ReadWrite.Common.{
  m_write, m_read, msg_mr, msg_done, MessageType, Polled, ConnMemory, Connection, Message, Mr,
  on_completion, drain_cq,
}
use cs594_dcn_f.ReadWrite.Progress.{At, AtMost, rdma_posts, on_completion-At, drain_cq-AtMost}
use cs594_dcn_f.Tests.Library.{verbs, received, sent}

abbrev peer : Mr
peer = record { addr = 7000; rkey = 8 }

abbrev message : Message
message = record { type = msg_mr; mr = peer }

abbrev connection : ℕ → ℕ → Connection
connection a b = record {
  id = 5;
  qp = 6;
  connected = true;
  recv_mr = 1;
  send_mr = 2;
  rdma_local_mr = 3;
  rdma_remote_mr = 4;
  peer_mr = peer;
  recv_msg = 10;
  send_msg = 11;
  received = message;
  sending = message;
  rdma_local_region = 12;
  rdma_remote_region = 13;
  send_state = a;
  recv_state = b;
}

abbrev world : ℕ → ℕ → World ConnMemory Call
world a b = record {
  state = record { s_ctx = none; context_of = λ id. 100; heap = λ p. some (connection a b) };
  log = [];
}

-- The send of the memory region completes after that of the peer has arrived.
on_completion-At_example :
    Ends (on_completion verbs m_read sent (world 0 1)) (At 100 1 1 1) (AtMost 1)
on_completion-At_example =
    on_completion-At verbs m_read sent (omega arith) 0 1 0 (world 0 1) (refl, refl)

-- The whole life of a connection: MSG_MR arrives, the program's own MSG_MR is sent, then the RDMA operation
-- and MSG_DONE complete, and the peer's MSG_DONE arrives.
abbrev polled : Wc → MessageType → Polled
polled wc t = record { wc = wc; message = record { type = t; mr = peer }; established = true }

abbrev life : List Polled
life =
    polled received msg_mr
    ∷ polled sent msg_mr
    ∷ polled sent msg_mr
    ∷ polled sent msg_mr
    ∷ polled received msg_done
    ∷ []

drain_cq-AtMost_example : rdma_posts (final (drain_cq verbs m_write life (world 0 0))).log ≤ 1
drain_cq-AtMost_example =
    drain_cq-AtMost verbs m_write 100 life 0 0 0 (world 0 0) (omega arith)
      (refl, (refl, (refl, (refl, (refl, tt))))) (omega arith) (refl, refl)
