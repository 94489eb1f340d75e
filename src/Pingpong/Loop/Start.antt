-- ===== src/Pingpong/Loop/Start.antt =====
-- The whole of the exchange of rc_pingpong.c, from a new context.
use cs594_dcn_f.Prelude.{◌<◌, ◌≡◌, Bool, true, false, Option, List, [], arith}
use cs594_dcn_f.Effects.{World, Ends, Ends-bind, Gives-weak, Gives-Ends, ◌>>◌}
use cs594_dcn_f.Pingpong.Api.{Call, Device}
use cs594_dcn_f.Pingpong.Loop.{
  Run, Counters, Wc, pp_post_recv, post_recvs, pp_post_send, request_event, send_first, prepare,
  start, exchange, ping_pong,
}
use cs594_dcn_f.Pingpong.Loop.Credit.{
  Inv, Anything, Posted, Never, sends, receives, post_recvs-Gives,
}
use cs594_dcn_f.Pingpong.Loop.Finish.{GenuinePolls, Finished, both, exchange-Finished}

-- The variables of `main` before it has a context.
abbrev pub fresh : World Counters Call
fresh = record {
  state = record {
    routs = 0;
    rcnt = 0;
    scnt = 0;
    pending_recv = false;
    pending_send = false;
    num_cq_events = 0;
  };
  log = [];
}

module _ (d : Device) (run : Run) where
  -- After the first receives: the credit is full, and nothing has been sent.
  abbrev pub Prepared : World Counters Call → Type 0
  Prepared w = (sends w.log ≡ 0) × (receives w.log ≡ w.state.routs) × (w.state.routs ≡ run.rx_depth)

  prepare-Prepared : Ends (prepare d run fresh) Prepared Anything
  unfolding prepare pp_post_recv request_event
  prepare-Prepared =
      Gives-Ends (post_recvs d run run.rx_depth 0) _ fresh (Posted fresh run.rx_depth 0) Prepared
        Anything
        (Gives-weak (post_recvs d run run.rx_depth 0 fresh) (Posted fresh run.rx_depth 0) Never
          Anything (post_recvs-Gives d run run.rx_depth 0 fresh) (λ w' h. tt))
        (λ more w' h. ground arith)

  start-Inv :
      (client : Bool) (w : World Counters Call)
      → 0 < run.rx_depth
      → 0 < run.iters
      → Prepared w
      → Ends (start d run client w) (Inv run) Anything
  unfolding start send_first pp_post_send
  start-Inv true w deep some_iters h = ground arith
  start-Inv false w deep some_iters h = ground arith

  -- From a new context, on the client and on the server: if the program comes to the end of its loop and
  -- has not exited, then exactly `iters` messages were sent, each of which has completed, and at
  -- least `iters` were received, where `iters` and `rx_depth` are positive and the completion of a send
  -- comes only while one is pending.
  pub ping_pong-Finished :
      (client : Bool) (polls : List (Option (List Wc)))
      → 0 < run.rx_depth
      → 0 < run.iters
      → Ends ((prepare d run >> start d run client) fresh) (GenuinePolls d run polls) Anything
      → Ends (ping_pong d run client polls fresh) (Finished d run) Anything
  unfolding ping_pong
  ping_pong-Finished client polls deep some_iters genuine =
      let begun =
        Ends-bind (prepare d run) (λ u. start d run client) fresh Prepared (Inv run) Anything
          prepare-Prepared (λ u w. start-Inv client w deep some_iters) in
      Ends-bind (prepare d run >> start d run client) (λ u. exchange d run polls) fresh
        (λ w. Inv run w × GenuinePolls d run polls w) (Finished d run) Anything
        (both ((prepare d run >> start d run client) fresh) (Inv run) (GenuinePolls d run polls)
          begun genuine)
        (λ u w h. exchange-Finished d run polls w deep h.1 h.0)
