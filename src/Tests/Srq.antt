-- ===== src/Tests/Srq.antt =====
-- srq_pingpong.c with two queue pairs, on a device on which every call succeeds.
use cs594_dcn_f.Prelude.{
  ℕ, zero, suc, ◌+◌, ◌≡◌, refl, sym, ap, Bool, true, false, some, none, Option, List, [], ◌∷◌,
  length, arith,
}
use cs594_dcn_f.Effects.{World, Log, Ends}
use cs594_dcn_f.Pingpong.Api.{
  ctx_memory, buffer, device, comp_channel, protection_domain, memory_region, completion_queue,
  queue_pair, shared_receive_queue, qp_array, dest_memory, Call, acquire, post_send, post_srq_recv,
  Device, Sge,
}
use cs594_dcn_f.Pingpong.Context.Close.{Closed}
use cs594_dcn_f.Pingpong.Dest.{PingpongDest}
use cs594_dcn_f.Pingpong.Exchange.Learns.{events as log_events}
use cs594_dcn_f.Pingpong.Srq.Context.{SrqContext, pp_init_ctx, pp_close_ctx}
use cs594_dcn_f.Pingpong.Srq.Context.Balance.{WholeOrNothing, pp_init_ctx-WholeOrNothing}
use cs594_dcn_f.Pingpong.Srq.Context.Closing.{pp_close_ctx-Closes}
use cs594_dcn_f.Pingpong.Srq.Connect.{Route}
use cs594_dcn_f.Pingpong.Srq.Loop.{
  nothing_pending, find_qp, begin_loop, SrqRun, Pending, element, SrqCounters, SrqWc, on_wc,
  both_pending,
}
use cs594_dcn_f.Pingpong.Srq.Loop.Requests.{Inv, Anything}
use cs594_dcn_f.Pingpong.Srq.Loop.Credit.{on_wc-SrqInv}
use cs594_dcn_f.Pingpong.Srq.Loop.Search.{IsFirst, find_qp-IsFirst}
use cs594_dcn_f.Pingpong.Srq.Loop.Begin.{begin_loop-Inv}
use cs594_dcn_f.Pingpong.Options.{server_name}
use cs594_dcn_f.Pingpong.Srq.Options.{
  SrqOpt, events, num_qp, rx_depth, initial, set_option, set_options, check_settings,
  parse_arguments,
}
use cs594_dcn_f.Pingpong.Srq.Options.Checks.{SrqParsed, parse_arguments-SrqParsed}
use cs594_dcn_f.Pingpong.Srq.Main.{run_main}
use cs594_dcn_f.Pingpong.Srq.Main.Release.{Released, run_main-Released}

abbrev answer : Log Call → Call → ℕ
answer log (acquire kind) = length log + 1
answer log c = 0

abbrev machine : Device
machine = record {
  answer = answer;
  upstream_odp = λ log. true;
  exp_odp = λ log. true;
  has_dm = λ log. true;
  mr_lkey = λ mr. mr;
  mr_addr = λ mr. mr;
  event_cq = λ log. 7;
}

pp_init_ctx-WholeOrNothing_example :
    WholeOrNothing (pp_init_ctx machine true 2 (record { state = tt; log = [] }))
pp_init_ctx-WholeOrNothing_example = pp_init_ctx-WholeOrNothing machine true 2

abbrev context : SrqContext
context = record {
  self = 1;
  buf = 2;
  context = 3;
  channel = 4;
  pd = 5;
  mr = 6;
  cq = 7;
  srq = 8;
  qp = 9;
  qps = 11 ∷ 10 ∷ [];
}

abbrev opened : Log Call
opened =
    (acquire queue_pair, 11)
    ∷ (acquire queue_pair, 10)
    ∷ (acquire qp_array, 9)
    ∷ (acquire shared_receive_queue, 8)
    ∷ (acquire completion_queue, 7)
    ∷ (acquire memory_region, 6)
    ∷ (acquire protection_domain, 5)
    ∷ (acquire comp_channel, 4)
    ∷ (acquire device, 3)
    ∷ (acquire buffer, 2)
    ∷ (acquire ctx_memory, 1)
    ∷ []

pp_close_ctx-Closes_example :
    Closed (pp_close_ctx machine context (record { state = tt; log = opened }))
pp_close_ctx-Closes_example =
    pp_close_ctx-Closes machine (λ log k p. refl) context (record { state = tt; log = opened })
      ((refl, tt), (tt, tt)) refl

abbrev dest : ℕ → PingpongDest
dest qpn = record { lid = 3; qpn = qpn; psn = 1234; gid = 0 ∷ 0 ∷ 0 ∷ 9 ∷ [] }

abbrev path : Route
path = record { port = 1; mtu = 3; sl = 0; sgid_idx = 0; gid = 0 ∷ 0 ∷ 0 ∷ 9 ∷ [] }

-- One exchange in all; the numbers of the queue pairs are 110 and 111.
abbrev run : SrqRun
run = record {
  ctx = context;
  size = 64;
  rx_depth = 3;
  iters = 1;
  use_event = false;
  qp_num = λ qp. qp + 100;
}

abbrev segment : Sge
segment = record { addr = 2; length = 64; lkey = 6 }

abbrev fresh : World SrqCounters Call
fresh = record {
  state = record { routs = 0; rcnt = 0; scnt = 0; pending = []; num_cq_events = 0 };
  log = opened;
}

begin_loop-Inv_example : Ends (begin_loop machine run true fresh) (Inv run) Anything
begin_loop-Inv_example = begin_loop-Inv machine run true fresh (omega arith) (omega arith) refl refl

-- Three receives are posted.
abbrev ready : World SrqCounters Call
ready = record {
  state = record { routs = 3; rcnt = 0; scnt = 0; pending = nothing_pending 2; num_cq_events = 0 };
  log =
      (post_srq_recv 8 1 segment, 0)
      ∷ (post_srq_recv 8 1 segment, 0)
      ∷ (post_srq_recv 8 1 segment, 0)
      ∷ [];
}

-- A client that has begun, and the completion of its send on the second queue pair.
abbrev begun : World SrqCounters Call
begun = record {
  state = record {
    routs = 3;
    rcnt = 0;
    scnt = 0;
    pending = both_pending ∷ both_pending ∷ [];
    num_cq_events = 0;
  };
  log = (post_send 11 2 segment, 0) ∷ (post_send 10 2 segment, 0) ∷ ready.log;
}

abbrev sent : SrqWc
sent = record { wc = record { success = true; wr_id = 2 }; qp_num = 111 }

pending_both :
    (i : ℕ) (p : Pending)
    → element i (both_pending ∷ both_pending ∷ []) ≡ some p
    → p.pending_send ≡ true
pending_both zero p e = sym (ap first e)
  where
    first : Option Pending → Bool
    first none = true
    first (some q) = q.pending_send
pending_both (suc zero) p e = sym (ap first e)
  where
    first : Option Pending → Bool
    first none = true
    first (some q) = q.pending_send
pending_both (suc (suc i)) p e = cc

on_wc-SrqInv_example : Ends (on_wc machine run sent begun) (Inv run) Anything
on_wc-SrqInv_example =
    on_wc-SrqInv machine run sent begun (omega arith) (omega arith)
      (λ i p found at is_send. pending_both i p at)
      (record {
        sent = refl;
        sends_few = omega arith;
        received = refl;
        enough_left = omega arith;
        few_left = omega arith;
        as_many = refl;
      })

-- The addresses of both sides are in memory.
run_main-Released_example : Released (
    run_main machine run true (some (sent ∷ []) ∷ none ∷ []) 12 13 (record {
      state = ready.state;
      log = (acquire dest_memory, 13) ∷ (acquire dest_memory, 12) ∷ opened;
    }))
run_main-Released_example =
    run_main-Released machine run (λ log k p. refl) ((refl, tt), (tt, tt)) 12 13 true
      (some (sent ∷ []) ∷ none ∷ [])
      (record {
        state = ready.state;
        log = (acquire dest_memory, 13) ∷ (acquire dest_memory, 12) ∷ opened;
      })
      refl

-- Four queue pairs and eight receives.
abbrev arguments : List SrqOpt
arguments = num_qp 4 ∷ rx_depth 8 ∷ events ∷ []

parsed :
    parse_arguments true arguments []
    ≡ some (record initial { num_qp = 4; rx_depth = 8; use_event = 1 }, none)
unfolding parse_arguments set_options set_option server_name check_settings
parsed = refl

parse_arguments-SrqParsed_example : SrqParsed true (parse_arguments true arguments [])
parse_arguments-SrqParsed_example = parse_arguments-SrqParsed true arguments []

find_qp-IsFirst_example :
    IsFirst (λ qp. qp + 100) 111 (10 ∷ 11 ∷ []) 0 (find_qp (λ qp. qp + 100) 111 (10 ∷ 11 ∷ []) 0)
find_qp-IsFirst_example = find_qp-IsFirst (λ qp. qp + 100) 111 (10 ∷ 11 ∷ []) 0
