-- ===== src/Pingpong/Loop/Finish.antt =====
-- What has been sent and received when the loop of rc_pingpong.c ends.
use cs594_dcn_f.Prelude.{
  ◌+◌, ◌≤◌, ◌<◌, ◌≡◌, Bool, true, false, ◌||◌, Bool-cases, inl, inr, Option, none, some, List, [],
  ◌∷◌, ltb, if◌then◌else◌, arith,
}
use cs594_dcn_f.Effects.{World, Outcome, Ends, Ends-bind, Ends-mono, Ends_both, skip, ◌>>◌}
use cs594_dcn_f.Pingpong.Api.{Call, Device}
use cs594_dcn_f.Pingpong.Loop.{
  Run, Counters, Wc, pingpong_send_wrid, on_wc, on_wcs, on_poll, wait_event, exchange,
}
use cs594_dcn_f.Pingpong.Loop.Credit.{Inv, Anything, sends, receives, on_wc-Inv}

pub both :
    {A : Type 0} (o : Outcome Counters Call A) (P P' : World Counters Call → Type 0)
    → Ends o P Anything
    → Ends o P' Anything
    → Ends o (λ w. P w × P' w) Anything
both o P P' h h' =
    Ends-mono o (λ w. P w × P' w) (λ w. Anything w × Anything w) Anything
      (Ends_both o P P' Anything Anything h h') (λ w k. tt)

module _ (d : Device) (run : Run) where
  -- Along a run of completions, that of a send comes only while a send is pending.
  abbrev pub Genuine : List Wc → World Counters Call → Type 0
  Genuine [] w = Unit
  Genuine (wc ∷ wcs) w =
      (wc.wr_id ≡ pingpong_send_wrid → w.state.pending_send ≡ true)
      × Ends (on_wc d run wc w) (Genuine wcs) Anything

  abbrev pub GenuinePoll : Option (List Wc) → World Counters Call → Type 0
  GenuinePoll none w = Unit
  GenuinePoll (some wcs) w = Genuine wcs w

  -- The wait before a poll.
  abbrev pub awaited : World Counters Call → Outcome Counters Call (Unit {0})
  awaited = if run.use_event then wait_event d run else skip

  -- The same along the polls of a run.
  abbrev pub GenuinePolls : List (Option (List Wc)) → World Counters Call → Type 0
  GenuinePolls [] w = Unit
  GenuinePolls (poll ∷ polls) w =
      Ends (awaited w)
        (λ w'. GenuinePoll poll w' × Ends (on_poll d run poll w') (GenuinePolls polls) Anything)
        Anything

  on_wcs-Inv :
      (wcs : List Wc) (w : World Counters Call)
      → 0 < run.rx_depth
      → Genuine wcs w
      → Inv run w
      → Ends (on_wcs d run wcs w) (Inv run) Anything
  unfolding on_wcs
  on_wcs-Inv [] w deep gen inv = inv
  on_wcs-Inv (wc ∷ wcs) w deep gen inv =
      Ends-bind (on_wc d run wc) (λ u. on_wcs d run wcs) w (λ w'. Inv run w' × Genuine wcs w')
        (Inv run) Anything
        (both (on_wc d run wc w) (Inv run) (Genuine wcs) (on_wc-Inv d run wc w deep gen.0 inv)
          gen.1)
        (λ u w' h. on_wcs-Inv wcs w' deep h.1 h.0)

  on_poll-Inv :
      (poll : Option (List Wc)) (w : World Counters Call)
      → 0 < run.rx_depth
      → GenuinePoll poll w
      → Inv run w
      → Ends (on_poll d run poll w) (Inv run) Anything
  unfolding on_poll
  on_poll-Inv none w deep gen inv = tt
  on_poll-Inv (some wcs) w deep gen inv = on_wcs-Inv wcs w deep gen inv

  wait_event-Inv :
      (w : World Counters Call) → Inv run w → Ends (wait_event d run w) (Inv run) Anything
  unfolding wait_event
  wait_event-Inv w inv = ground arith

  awaited-Inv :
      (b : Bool) (w : World Counters Call)
      → Inv run w
      → Ends ((if b then wait_event d run else skip) w) (Inv run) Anything
  awaited-Inv true w inv = wait_event-Inv w inv
  awaited-Inv false w inv = inv

  -- All `iters` messages have been sent and have completed, and as many have been received.
  pub record Finished (w : World Counters Call) : Type 0 where
    pub all_sent : sends w.log ≡ run.iters
    pub all_completed : w.state.scnt ≡ run.iters
    pub all_received : run.iters ≤ w.state.rcnt
    pub credit : receives w.log ≡ w.state.rcnt + w.state.routs

  finish :
      (w : World Counters Call)
      → Inv run w
      → (ltb w.state.rcnt run.iters || ltb w.state.scnt run.iters) ≡ false
      → Finished w
  finish w inv e = record {
    all_sent = ground arith;
    all_completed = ground arith;
    all_received = ground arith;
    credit = inv.received;
  }

  -- A wait and its poll.
  poll-Inv :
      (poll : Option (List Wc)) (polls : List (Option (List Wc))) (w : World Counters Call)
      → 0 < run.rx_depth
      → GenuinePolls (poll ∷ polls) w
      → Inv run w
      → Ends ((awaited >> on_poll d run poll) w) (λ w'. Inv run w' × GenuinePolls polls w') Anything
  poll-Inv poll polls w deep gen inv =
      Ends-bind awaited (λ u. on_poll d run poll) w
        (λ w'.
          Inv run w'
          × (GenuinePoll poll w' × Ends (on_poll d run poll w') (GenuinePolls polls) Anything))
        (λ w'. Inv run w' × GenuinePolls polls w') Anything
        (both (awaited w) (Inv run) _ (awaited-Inv run.use_event w inv) gen)
        (λ u w' h.
          both (on_poll d run poll w') (Inv run) (GenuinePolls polls)
            (on_poll-Inv poll w' deep h.1.0 h.0) h.1.1)

  -- If the loop ends and the process has not exited, then exactly `iters` messages were sent, each of
  -- which has completed, and at least `iters` were received, where it starts from counters that
  -- describe the requests, with room for a receive, and where sends complete only when they are pending.
  pub exchange-Finished :
      (polls : List (Option (List Wc))) (w : World Counters Call)
      → 0 < run.rx_depth
      → GenuinePolls polls w
      → Inv run w
      → Ends (exchange d run polls w) Finished Anything
  unfolding exchange
  exchange-Finished [] w deep gen inv =
      elim (Bool-cases (ltb w.state.rcnt run.iters || ltb w.state.scnt run.iters)) [
        | inl e ↦ rw (e) tt
        | inr e ↦ rw (e) (finish w inv e)
      ]
  exchange-Finished (poll ∷ polls) w deep gen inv =
      elim (Bool-cases (ltb w.state.rcnt run.iters || ltb w.state.scnt run.iters)) [
        | inl e ↦ rw (e) (
            Ends-bind (awaited >> on_poll d run poll) (λ u. exchange d run polls) w
              (λ w'. Inv run w' × GenuinePolls polls w') Finished Anything
              (poll-Inv poll polls w deep gen inv)
              (λ u w' h. exchange-Finished polls w' deep h.1 h.0))
        | inr e ↦ rw (e) (finish w inv e)
      ]
