-- ===== src/Tests/SrqExchange.antt =====
-- The exchange of addresses of srq_pingpong.c, for one queue pair: with a peer whose messages come in two pieces, one that has
-- closed its end, and a network on which reads fail.
use cs594_dcn_f.Prelude.{
  ℕ, zero, suc, ◌-◌, ◌^◌, ◌≡◌, refl, true, false, List, [], ◌∷◌, length, min, arith,
}
use cs594_dcn_f.Effects.{World, Log, pure}
use cs594_dcn_f.Pingpong.Api.{Call, acquire, write_socket, receive}
use cs594_dcn_f.Pingpong.Context.{P}
use cs594_dcn_f.Pingpong.Dest.{PingpongDest}
use cs594_dcn_f.Pingpong.Exchange.{Host, Link}
use cs594_dcn_f.Pingpong.Srq.Context.{SrqContext}
use cs594_dcn_f.Pingpong.Srq.Exchange.{read_msg}
use cs594_dcn_f.Pingpong.Srq.Exchange.Reads.{Hangs, read_msg-Hangs, Reads, read_msg-Reads}

abbrev answer : (ℕ → ℕ) → Log Call → Call → ℕ
answer reads log (acquire kind) = 7
answer reads log (write_socket s bytes) = length bytes
answer reads log (receive s n) = reads n
answer reads log c = 0

abbrev zeros : ℕ → List ℕ
zeros zero = []
zeros (suc n) = 48 ∷ zeros n

-- What the last read has brought.
abbrev received : Log Call → List ℕ
received ((receive s n, r) ∷ log) = zeros r
received log = []

abbrev host : (ℕ → ℕ) → Host
host reads = record {
  device = record {
    answer = answer reads;
    upstream_odp = λ log. true;
    exp_odp = λ log. true;
    has_dm = λ log. true;
    mr_lkey = λ mr. mr;
    mr_addr = λ mr. mr;
    event_cq = λ log. 7;
  };
  addresses = 1;
  received = received;
  htonl = λ n. n;
  ntohl = λ n. n;
}

abbrev empty : World (Unit {0}) Call
empty = record { state = tt; log = [] }

abbrev closed : ℕ → ℕ
closed n = 0

abbrev failing : ℕ → ℕ
failing n = 2 ^ 32 - 1

abbrev pieces : ℕ → ℕ
pieces n = min n 30

abbrev text_length : List ℕ → P ℕ
text_length text = pure (length text)

read_msg-Hangs_example : Hangs (read_msg (host closed) 9 7 (pure 0) text_length 20 [] empty)
read_msg-Hangs_example =
    read_msg-Hangs (host closed) 9 7 (pure 0) text_length 20 [] empty (λ log k. refl) (omega arith)

length-zeros : (n : ℕ) → length (zeros n) ≡ n
length-zeros zero = refl
length-zeros (suc n) = omega (arith, length-zeros n)

read_msg-Reads_example :
    Reads text_length (read_msg (host pieces) 60 7 (pure 0) text_length 0 [] empty)
read_msg-Reads_example =
    read_msg-Reads (host pieces) 60 7 (pure 0) text_length 0 [] empty
      (λ log k some_. omega (arith, some_)) (λ log k. omega arith) (λ log k r. length-zeros r) refl
      (omega arith) (omega arith)

abbrev dest : PingpongDest
dest = record { lid = 3; qpn = 77; psn = 1234; gid = 0 ∷ 0 ∷ 0 ∷ 9 ∷ [] }

abbrev link : Link
link = record { use_ooo = false; port = 1; mtu = 3; sl = 0; sgid_idx = 0 }

abbrev context : SrqContext
context = record {
  self = 1;
  buf = 2;
  context = 3;
  channel = 4;
  pd = 5;
  mr = 6;
  cq = 7;
  srq = 8;
  qp = 9;
  qps = 10 ∷ [];
}
