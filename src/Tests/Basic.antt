-- ===== src/Tests/Basic.antt =====
-- A client of 01_basic-client-server that sees its two completions.
use cs594_dcn_f.Prelude.{refl, some, none, [], ◌∷◌, arith}
use cs594_dcn_f.Effects.{World, Ends}
use cs594_dcn_f.Rdma.{Call}
use cs594_dcn_f.Basic.Common.{Connection, ConnMemory, drain_cq}
use cs594_dcn_f.Basic.Client.{on_completion}
use cs594_dcn_f.Basic.Client.Completions.{Counted, AtMost, drain_cq-Disconnects}
use cs594_dcn_f.Tests.Library.{verbs, received, sent}

abbrev connection : Connection
connection = record {
  id = 5;
  qp = 6;
  recv_mr = 1;
  send_mr = 2;
  recv_region = 10;
  send_region = 11;
  num_completions = 0;
}

abbrev world : World ConnMemory Call
world = record {
  state = record { s_ctx = none; context_of = λ id. 100; heap = λ p. some connection };
  log = [];
}

drain_cq-Disconnects_example :
    Ends
      (drain_cq verbs (on_completion verbs) (received ∷ sent ∷ []) world)
      (Counted 100 2 1)
      (AtMost 1)
drain_cq-Disconnects_example =
    drain_cq-Disconnects verbs 100 (received ∷ sent ∷ []) 0 0 world (omega arith) (refl, (refl, tt))
      (refl, refl)
