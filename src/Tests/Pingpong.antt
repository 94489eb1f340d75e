-- ===== src/Tests/Pingpong.antt =====
-- rc_pingpong.c with device memory, on a device whose copies succeed, and on one whose copies fail.
use cs594_dcn_f.Prelude.{
  ◌==◌, ◌%◌, ◌^◌, ◌≡◌, ℕ, ◌+◌, refl, true, false, Option, none, some, List, [], ◌∷◌, length, arith,
}
use cs594_dcn_f.Effects.{World, Log, Ends, Gives, ◌>>◌}
use cs594_dcn_f.Pingpong.Api.{
  ctx_memory, buffer, device, comp_channel, protection_domain, device_memory, memory_region,
  completion_queue, queue_pair, Call, acquire, memcpy_dm, modify_qp_init, post_send, post_recv,
  Device, Sge,
}
use cs594_dcn_f.Pingpong.Context.{Options, PingpongContext, pp_init_ctx, pp_close_ctx}
use cs594_dcn_f.Pingpong.Context.Init.{AllOrNothing, pp_init_ctx-AllOrNothing}
use cs594_dcn_f.Pingpong.Context.Close.{Closed, pp_close_ctx-Closed}
use cs594_dcn_f.Pingpong.Context.Life.{Lives, pp_init_ctx-Lives}
use cs594_dcn_f.Pingpong.Nop.{Poll, send_nop, send_nop-Decided}
use cs594_dcn_f.Pingpong.Options.{
  mtu_4096, Settings, Opt, memic, port, mtu, initial, init_options, set_option, set_options,
  server_name, check_settings, pp_mtu_to_enum, mtu_negative, parse_arguments,
}
use cs594_dcn_f.Pingpong.Options.Checks.{Accepted, Parsed, parse_arguments-Parsed}
use cs594_dcn_f.Pingpong.Dest.{PingpongDest}
use cs594_dcn_f.Pingpong.Connect.{pp_connect_ctx}
use cs594_dcn_f.Pingpong.Connect.Transitions.{Connected, pp_connect_ctx-Connected}
use cs594_dcn_f.Pingpong.Gid.{gid_to_wire_gid, wire_gid_to_gid}
use cs594_dcn_f.Pingpong.Gid.RoundTrip.{wire_gid_to_gid-gid_to_wire_gid}
use cs594_dcn_f.Pingpong.Loop.{
  start, Run, Counters, Wc, on_wc, on_wcs, on_poll, wait_event, on_send, send_next, on_recv, refill,
  pp_post_recv, post_recvs, ping_pong, prepare, request_event, send_first, pp_post_send,
}
use cs594_dcn_f.Pingpong.Loop.Finish.{GenuinePolls, Finished}
use cs594_dcn_f.Pingpong.Loop.Start.{fresh, ping_pong-Finished}
use cs594_dcn_f.Pingpong.Loop.Credit.{Inv, Anything, on_wc-Inv}

abbrev answer : ℕ → Log Call → Call → ℕ
answer copy log (acquire kind) = length log + 1
answer copy log memcpy_dm = copy
answer copy log c = 0

abbrev device_with : ℕ → Device
device_with copy = record {
  answer = answer copy;
  upstream_odp = λ log. true;
  exp_odp = λ log. true;
  has_dm = λ log. true;
  mr_lkey = λ mr. mr;
  mr_addr = λ mr. mr;
  event_cq = λ log. 8;
}

abbrev options : Options
options = record {
  use_contiguous_mr = false;
  use_odp = false;
  use_dm = true;
  use_upstream = false;
  use_event = true;
  inlr_recv = 0;
}

abbrev empty : World (Unit {0}) Call
empty = record { state = tt; log = [] }

abbrev context : PingpongContext
context = record {
  self = 1;
  buf = 2;
  context = 3;
  channel = 4;
  pd = 5;
  dm = 6;
  mr = 7;
  cq = 8;
  qp = 9;
}

abbrev up_to_mr : Log Call
up_to_mr =
    (acquire memory_region, 7)
    ∷ (acquire device_memory, 6)
    ∷ (acquire protection_domain, 5)
    ∷ (acquire comp_channel, 4)
    ∷ (acquire device, 3)
    ∷ (acquire buffer, 2)
    ∷ (acquire ctx_memory, 1)
    ∷ []

abbrev all : World (Unit {0}) Call
all = record {
  state = tt;
  log = (acquire queue_pair, 9) ∷ (acquire completion_queue, 8) ∷ up_to_mr;
}

pp_init_ctx-AllOrNothing_example :
    AllOrNothing (device_with 0) options (pp_init_ctx (device_with 0) options empty)
pp_init_ctx-AllOrNothing_example = pp_init_ctx-AllOrNothing (device_with 0) options (λ dm log. refl)

pp_close_ctx-Closed_example : Closed (pp_close_ctx (device_with 0) options context all)
pp_close_ctx-Closed_example =
    pp_close_ctx-Closed (device_with 0) (λ log kind p. refl) options context all refl refl

abbrev run : Run
run = record {
  ctx = context;
  size = 4096;
  rx_depth = 2;
  iters = 10;
  use_event = false;
  use_dm = false;
}

abbrev segment : Sge
segment = record { addr = 2; length = 4096; lkey = 7 }

-- Two receives are posted, and the first message is on its way.
abbrev begun : World Counters Call
begun = record {
  state = record {
    routs = 2;
    rcnt = 0;
    scnt = 0;
    pending_recv = true;
    pending_send = true;
    num_cq_events = 0;
  };
  log = (post_send 9 2 segment, 0) ∷ (post_recv 9 1 segment, 0) ∷ (post_recv 9 1 segment, 0) ∷ [];
}

on_wc-Inv_example :
    Ends (on_wc (device_with 0) run (record { success = true; wr_id = 1 }) begun) (Inv run) Anything
on_wc-Inv_example =
    on_wc-Inv (device_with 0) run (record { success = true; wr_id = 1 }) begun (omega arith)
      (λ e. refl)
      (record {
        sent = refl;
        sends_few = omega arith;
        received = refl;
        some_left = omega arith;
        few_left = omega arith;
      })

-- A run of one message, with events: one poll brings both completions.
abbrev short_run : Run
short_run = record {
  ctx = context;
  size = 4096;
  rx_depth = 2;
  iters = 1;
  use_event = true;
  use_dm = false;
}

abbrev both_done : List (Option (List Wc))
both_done =
    some (record { success = true; wr_id = 2 } ∷ record { success = true; wr_id = 1 } ∷ []) ∷ []

genuine :
    Ends
      ((prepare (device_with 0) short_run >> start (device_with 0) short_run true) fresh)
      (GenuinePolls (device_with 0) short_run both_done)
      Anything
unfolding prepare start request_event send_first pp_post_send on_wc on_wcs on_poll wait_event
    on_send send_next on_recv refill pp_post_recv post_recvs
genuine = ((λ e. refl, (λ e. absurd (omega arith), tt)), tt)

ping_pong-Finished_example :
    Ends
      (ping_pong (device_with 0) short_run true both_done fresh)
      (Finished (device_with 0) short_run)
      Anything
ping_pong-Finished_example =
    ping_pong-Finished (device_with 0) short_run true both_done (omega arith) (omega arith) genuine

-- A network whose byte order is the program's.
abbrev host_order : ℕ → ℕ
host_order w = w % 2 ^ 32

abbrev gid : List ℕ
gid = 0xfe800000 ∷ 0 ∷ 0x0002c903 ∷ 0x00abcdef ∷ []

wire_gid_to_gid-gid_to_wire_gid_example :
    (length (gid_to_wire_gid host_order gid) ≡ 32)
    × (wire_gid_to_gid host_order (gid_to_wire_gid host_order gid) ≡ some gid)
wire_gid_to_gid-gid_to_wire_gid_example =
    wire_gid_to_gid-gid_to_wire_gid host_order host_order 0xfe800000 0 0x0002c903 0x00abcdef
      (λ w. omega arith) (λ w small. omega arith) (omega arith) (omega arith) (omega arith)
      (omega arith)

-- A queue pair in INIT, and the peer's side of the connection.
abbrev in_init : World (Unit {0}) Call
in_init = record { state = tt; log = (modify_qp_init 9, 0) ∷ [] }

abbrev dest : PingpongDest
dest = record { lid = 3; qpn = 77; psn = 1234; gid = gid }

pp_connect_ctx-Connected_example :
    Gives
      (pp_connect_ctx (device_with 0) false context 1 4321 3 0 dest 0 in_init)
      (Connected 9)
      (λ w'. ⊥)
pp_connect_ctx-Connected_example =
    pp_connect_ctx-Connected (device_with 0) false context 1 4321 3 0 dest 0 in_init refl

-- Device memory, on port 5000, with an MTU of 4096 bytes.
abbrev arguments : List Opt
arguments = memic ∷ port 5000 ∷ mtu 4096 ∷ []

abbrev chosen : Settings
chosen = record initial { use_dm = true; port = 5000; mtu = mtu_4096 }

parsed : parse_arguments true arguments [] ≡ some (chosen, none)
unfolding parse_arguments set_options set_option server_name check_settings pp_mtu_to_enum
    mtu_negative
parsed = refl

parse_arguments-Parsed_example : Parsed true (parse_arguments true arguments [])
parse_arguments-Parsed_example = parse_arguments-Parsed true arguments []

chosen-Accepted : Accepted true chosen
unfolding parse_arguments set_options set_option server_name check_settings pp_mtu_to_enum
    mtu_negative
chosen-Accepted = parse_arguments-Parsed true arguments []

pp_init_ctx-Lives_example :
    Lives
      (device_with 0)
      (init_options chosen)
      (pp_init_ctx (device_with 0) (init_options chosen) (record { state = tt; log = [] }))
pp_init_ctx-Lives_example =
    pp_init_ctx-Lives (device_with 0) true chosen chosen-Accepted (λ log. refl) (λ log k p. refl)

-- Two polls that bring nothing, then a completion with an error, and one more poll.
abbrev idle_poll : Poll
idle_poll = record { n = 0; status = 0 }

abbrev failing_poll : Poll
failing_poll = record { n = 1; status = 5 }

send_nop-Decided_example :
    Gives
      (send_nop (device_with 0) 9 (idle_poll ∷ idle_poll ∷ failing_poll ∷ idle_poll ∷ []) empty)
      (λ r w'. (r == 0) ≡ false)
      (λ w'. ⊥)
send_nop-Decided_example =
    send_nop-Decided failing_poll (idle_poll ∷ []) (omega arith) (device_with 0) 9
      (idle_poll ∷ idle_poll ∷ []) empty (refl, (refl, tt))
