-- ===== src/Tests/Library.antt =====
-- Libraries whose calls succeed, for the programs of examples/the-geek-in-the-corner.
use cs594_dcn_f.Prelude.{ℕ, ◌+◌, Bool, true, false, length, ltb, if◌then◌else◌}
use cs594_dcn_f.Effects.{Log}
use cs594_dcn_f.Rdma.{
  Verbs, Call, Wc, WcOpcode, wc_send, wc_recv, wc_recv_rdma_with_imm, open_file, write_file,
}

abbrev answer : Log Call → Call → ℕ
answer log (open_file name) = 3
answer log (write_file fd bytes) = length bytes
answer log c = 0

abbrev recv_bit : WcOpcode → Bool
recv_bit wc_recv = true
recv_bit wc_recv_rdma_with_imm = true
recv_bit op = false

abbrev pub verbs : Verbs
verbs = record {
  answer = answer;
  recv_bit = recv_bit;
  created_id = λ log. 5;
  qp_of = λ id. id + 1;
  verbs_of = λ id. 9;
  mr_lkey = λ mr. mr + 2;
  mr_rkey = λ mr. mr + 3;
  mr_addr = λ mr. mr + 4;
  size_of_message = 24;
  read_size = λ log bytes limit. if ltb limit (length bytes) then limit else length bytes;
  htonl = λ x. x;
  ntohl = λ x. x;
}

abbrev pub received : Wc
received = record { wr_id = 100; success = true; opcode = wc_recv; imm_data = 0 }

abbrev pub sent : Wc
sent = record { wr_id = 100; success = true; opcode = wc_send; imm_data = 0 }
