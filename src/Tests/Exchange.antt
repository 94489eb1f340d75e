-- ===== src/Tests/Exchange.antt =====
-- rc_pingpong.c: two programs tell each other where they are.
use cs594_dcn_f.Prelude.{ℕ, ◌%◌, ◌^◌, ◌≡◌, refl, true, false, some, List, [], ◌∷◌, length, arith}
use cs594_dcn_f.Effects.{World, Log}
use cs594_dcn_f.Pingpong.Api.{Call, acquire, write_socket, receive}
use cs594_dcn_f.Pingpong.Context.{PingpongContext}
use cs594_dcn_f.Pingpong.Dest.{PingpongDest, whole, dest_message, scan_dest, message_size}
use cs594_dcn_f.Pingpong.Dest.RoundTrip.{ByteOrder, IsDest, scan_dest-dest_message}
use cs594_dcn_f.Pingpong.Exchange.{Host, Link, pp_client_exch_dest, pp_server_exch_dest}
use cs594_dcn_f.Pingpong.Exchange.Steps.{Ended}
use cs594_dcn_f.Pingpong.Exchange.Balance.{client_scan, pp_client_exch_dest-Ended}
use cs594_dcn_f.Pingpong.Exchange.Listen.{pp_server_exch_dest-Ended}
use cs594_dcn_f.Pingpong.Exchange.Learns.{Event, events, to_server, to_client, Works, Learnt}
use cs594_dcn_f.Pingpong.Exchange.Agreement.{client_events, server_events, pp_exch_dest-Agreement}

abbrev answer : (List Event → ℕ) → Log Call → Call → ℕ
answer incoming log (acquire kind) = 7
answer incoming log (write_socket s bytes) = length bytes
answer incoming log (receive s n) = incoming (events log)
answer incoming log c = 0

abbrev to_network : ℕ → ℕ
to_network w = w % 2 ^ 32

abbrev same : ℕ → ℕ
same w = w

abbrev host : (List Event → ℕ) → PingpongDest → Host
host incoming peer = record {
  device = record {
    answer = answer incoming;
    upstream_odp = λ log. true;
    exp_odp = λ log. true;
    has_dm = λ log. true;
    mr_lkey = λ mr. mr;
    mr_addr = λ mr. mr;
    event_cq = λ log. 7;
  };
  addresses = 1;
  received = λ log. dest_message to_network peer;
  htonl = to_network;
  ntohl = same;
}

abbrev client_dest : PingpongDest
client_dest = record { lid = 1; qpn = 4660; psn = 77; gid = 0 ∷ 0 ∷ 0 ∷ 5 ∷ [] }

abbrev server_dest : PingpongDest
server_dest = record { lid = 65535; qpn = 16777215; psn = 0; gid = 4294967295 ∷ 0 ∷ 10 ∷ 9 ∷ [] }

order : ByteOrder to_network same
order = record { fits = λ w. omega arith; undoes = λ w small. omega (arith, small) }

client_dest-IsDest : IsDest client_dest
client_dest-IsDest = record {
  lid_small = omega arith;
  qpn_small = omega arith;
  psn_small = omega arith;
  four = refl;
  words = (omega arith, (omega arith, (omega arith, (omega arith, tt))));
}

server_dest-IsDest : IsDest server_dest
server_dest-IsDest = record {
  lid_small = omega arith;
  qpn_small = omega arith;
  psn_small = omega arith;
  four = refl;
  words = (omega arith, (omega arith, (omega arith, (omega arith, tt))));
}

host-Works :
    (incoming : List Event → ℕ) (peer : PingpongDest) → Works (host incoming peer) incoming peer
host-Works incoming peer = record {
  acquires = λ log k. refl;
  connects = λ log s. refl;
  binds = λ log s. refl;
  modifies = λ log qp attr use_ooo. refl;
  writes = λ log s bytes. refl;
  reads = λ log s. refl;
  message = λ log. refl;
  address = 0;
  addresses_are = refl;
  order = order;
}

abbrev empty : World (Unit {0}) Call
empty = record { state = tt; log = [] }

abbrev context : PingpongContext
context = record {
  self = 1;
  buf = 2;
  context = 3;
  channel = 4;
  pd = 5;
  dm = 6;
  mr = 7;
  cq = 8;
  qp = 9;
}

abbrev link : Link
link = record { use_ooo = false; port = 1; mtu = 3; sl = 0; sgid_idx = 0 }

scan_dest-dest_message_example :
    (length (dest_message to_network server_dest) ≡ message_size)
    × (scan_dest same (dest_message to_network server_dest) ≡ some server_dest)
scan_dest-dest_message_example =
    scan_dest-dest_message to_network same order server_dest server_dest-IsDest

pp_client_exch_dest-Ended_example :
    Ended
      (host to_client server_dest)
      (client_scan (host to_client server_dest) client_dest)
      []
      (pp_client_exch_dest (host to_client server_dest) client_dest empty)
pp_client_exch_dest-Ended_example =
    pp_client_exch_dest-Ended (host to_client server_dest) client_dest [] empty refl

pp_server_exch_dest-Ended_example :
    Ended
      (host to_server client_dest)
      (scan_dest same)
      []
      (pp_server_exch_dest (host to_server client_dest) context link server_dest empty)
pp_server_exch_dest-Ended_example =
    pp_server_exch_dest-Ended (host to_server client_dest) context link server_dest [] empty refl

pp_exch_dest-Agreement_example :
    Learnt
      (whole server_dest)
      (client_events to_network client_dest)
      (pp_client_exch_dest (host to_client server_dest) client_dest empty)
    × Learnt client_dest
        (server_events to_network context link server_dest client_dest)
        (pp_server_exch_dest (host to_server client_dest) context link server_dest empty)
pp_exch_dest-Agreement_example =
    pp_exch_dest-Agreement (host to_client server_dest) (host to_server client_dest) context link
      client_dest server_dest client_dest-IsDest server_dest-IsDest
      (host-Works to_client server_dest) (host-Works to_server client_dest) empty empty refl refl
