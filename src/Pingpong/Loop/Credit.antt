-- ===== src/Pingpong/Loop/Credit.antt =====
-- The counters of the exchange against the requests that have been posted.
use cs594_dcn_f.Prelude.{
  ℕ, zero, suc, ◌+◌, ◌-◌, ◌≤◌, ◌<◌, ◌≡◌, refl, Bool, true, false, [], ◌∷◌, leb, ◌==◌, if◌then◌else◌,
  Bool-cases, inl, inr, arith,
}
use cs594_dcn_f.Effects.{
  World, Log, Ends, Gives, Gives-bind, Gives-mono, Gives-weak, Gives-Ends, Ends-bind, pure, halt,
  exit_failure,
}
use cs594_dcn_f.Pingpong.Api.{Call, Device, post_recv, post_send}
use cs594_dcn_f.Pingpong.Loop.{
  Run, Counters, Wc, post_recvs, pp_post_recv, pp_post_send, refill, on_recv, on_send,
  send_and_wait, send_next, on_wc, pingpong_send_wrid, pingpong_recv_wrid, segment,
}

-- How many sends, and how many receives, the queue pair has taken.
abbrev pub sends : Log Call → ℕ
sends [] = 0
sends ((post_send qp id sge, r) ∷ log) = if r == 0 then suc (sends log) else sends log
sends (_ ∷ log) = sends log

abbrev pub receives : Log Call → ℕ
receives [] = 0
receives ((post_recv qp id sge, r) ∷ log) = if r == 0 then suc (receives log) else receives log
receives (_ ∷ log) = receives log

abbrev pub bit : Bool → ℕ
bit true = 1
bit false = 0

-- Every send is counted in `scnt` or pending, and there are at most `iters`; every receive is
-- counted in `rcnt` or in `routs`, and there is always one left, and at most `rx_depth`.
pub record Inv (run : Run) (w : World Counters Call) : Type 0 where
  pub sent : sends w.log ≡ w.state.scnt + bit w.state.pending_send
  pub sends_few : sends w.log ≤ run.iters
  pub received : receives w.log ≡ w.state.rcnt + w.state.routs
  pub some_left : 0 < w.state.routs
  pub few_left : w.state.routs ≤ run.rx_depth

-- What posting receives leaves alone, and what it adds.
abbrev pub Posted : World Counters Call → ℕ → ℕ → ℕ → World Counters Call → Type 0
Posted w n i more w' =
    (w'.state ≡ w.state)
    × (sends w'.log ≡ sends w.log)
    × (receives w'.log + i ≡ receives w.log + more)
    × (more ≤ i + n)

abbrev pub Never : World Counters Call → Type 0
Never w = ⊥

abbrev pub Anything : World Counters Call → Type 0
Anything w = Unit

module _ (d : Device) (run : Run) where
  -- Posting `n` receives returns; the answer counts those that were taken.
  pub post_recvs-Gives :
      (n i : ℕ) (w : World Counters Call) → Gives (post_recvs d run n i w) (Posted w n i) Never
  unfolding post_recvs
  post_recvs-Gives zero i w = (refl, refl, refl, omega arith)
  post_recvs-Gives (suc n) i w =
      let c : Call = post_recv run.ctx.qp pingpong_recv_wrid (segment d run) in
      let w' : World Counters Call = record {
        state = w.state;
        log = (c, d.answer w.log c) ∷ w.log;
      } in
      elim (Bool-cases (d.answer w.log c == 0)) [
        | inl e ↦
            rw (e, Gives)
              (Gives-mono (post_recvs d run n (i + 1) w') (Posted w' n (i + 1)) (Posted w (suc n) i)
                Never (post_recvs-Gives n (i + 1) w') (λ more w'' h. ground arith))
        | inr e ↦ rw (e, Gives) (ground arith)
      ]

  -- A refill that returns has filled up to `rx_depth`.
  refill-Gives :
      (routs : ℕ) (w : World Counters Call)
      → routs ≤ run.rx_depth
      → Gives
          (refill d run routs w)
          (λ full w'.
            (w'.state ≡ w.state)
            × (sends w'.log ≡ sends w.log)
            × (receives w'.log + routs ≡ receives w.log + full)
            × (full ≡ run.rx_depth))
          Anything
  unfolding refill pp_post_recv
  refill-Gives routs w few =
      Gives-bind (post_recvs d run (run.rx_depth - routs) 0) _ w (Posted w (run.rx_depth - routs) 0)
        _ Anything
        (Gives-weak (post_recvs d run (run.rx_depth - routs) 0 w)
          (Posted w (run.rx_depth - routs) 0) Never Anything
          (post_recvs-Gives (run.rx_depth - routs) 0 w) (λ w' h. tt))
        (λ more w' h. ground arith)

  -- The number of receives after a completion, `left` of them before any refill.
  top_up-Gives :
      (left : ℕ) (w : World Counters Call)
      → 0 < run.rx_depth
      → left ≤ run.rx_depth
      → Gives
          ((if leb left 1 then refill d run left else pure left) w)
          (λ full w'.
            (w'.state ≡ w.state)
            × (sends w'.log ≡ sends w.log)
            × (receives w'.log + left ≡ receives w.log + full)
            × (0 < full)
            × (full ≤ run.rx_depth))
          Anything
  top_up-Gives left w deep few = elim (Bool-cases (leb left 1)) [
    | inl e ↦ rw (e) (
        Gives-mono (refill d run left w) _ _ Anything (refill-Gives left w few)
          (λ full w' h. ground arith))
    | inr e ↦ rw (e) (ground arith)
  ]

  on_recv-Inv :
      (w : World Counters Call)
      → 0 < run.rx_depth
      → Inv run w
      → Ends (on_recv d run w) (Inv run) Anything
  unfolding on_recv
  on_recv-Inv w deep inv =
      Gives-Ends
        (if leb (w.state.routs - 1) 1
          then refill d run (w.state.routs - 1)
          else pure (w.state.routs - 1))
        _ w _ (Inv run) Anything (top_up-Gives (w.state.routs - 1) w deep (ground arith))
        (λ full w' h. record {
          sent = ground arith;
          sends_few = ground arith;
          received = ground arith;
          some_left = ground arith;
          few_left = ground arith;
        })

  on_send-Inv :
      (w : World Counters Call)
      → w.state.pending_send ≡ true
      → Inv run w
      → Ends (on_send d run w) (Inv run) Anything
  unfolding on_send
  on_send-Inv w waited inv = ground arith

  send_next-Inv :
      (w : World Counters Call) → Inv run w → Ends (send_next d run w) (Inv run) Anything
  unfolding send_next send_and_wait pp_post_send
  send_next-Inv w inv = ground arith

  -- The case of the `switch`.
  choose-Inv :
      (wc : Wc) (w : World Counters Call)
      → 0 < run.rx_depth
      → (wc.wr_id ≡ pingpong_send_wrid → w.state.pending_send ≡ true)
      → Inv run w
      → Ends
          ((if wc.wr_id == pingpong_send_wrid
              then on_send d run
              else if wc.wr_id == pingpong_recv_wrid
              then on_recv d run
              else halt exit_failure)
            w)
          (Inv run)
          Anything
  choose-Inv wc w deep waited inv = elim (Bool-cases (wc.wr_id == pingpong_send_wrid)) [
    | inl e ↦ rw (e) (on_send-Inv w (waited (ground arith)) inv)
    | inr e ↦ rw (e) (elim (Bool-cases (wc.wr_id == pingpong_recv_wrid)) [
      | inl e' ↦ rw (e') (on_recv-Inv w deep inv)
      | inr e' ↦ rw (e') tt
    ])
  ]

  -- The handling of a completion, that of a send only while one is pending, keeps the counters in step with the
  -- requests where `rx_depth` is positive: if they describe the requests before it, they do so after it, unless the
  -- program exits.
  pub on_wc-Inv :
      (wc : Wc) (w : World Counters Call)
      → 0 < run.rx_depth
      → (wc.wr_id ≡ pingpong_send_wrid → w.state.pending_send ≡ true)
      → Inv run w
      → Ends (on_wc d run wc w) (Inv run) Anything
  unfolding on_wc
  on_wc-Inv wc w deep waited inv = elim (Bool-cases wc.success) [
    | inl e ↦ rw (e) (
        Ends-bind
          (if wc.wr_id == pingpong_send_wrid
            then on_send d run
            else if wc.wr_id == pingpong_recv_wrid
            then on_recv d run
            else halt exit_failure)
          (λ u. send_next d run) w (Inv run) (Inv run) Anything (choose-Inv wc w deep waited inv)
          (λ u. send_next-Inv))
    | inr e ↦ rw (e) tt
  ]
