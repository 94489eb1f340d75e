-- ===== src/Pingpong/Srq/Loop/Receives.antt =====
-- How srq_pingpong.c counts a completion: the requests that it posts for a receive.
use cs594_dcn_f.Prelude.{
  ℕ, zero, suc, ◌+◌, ◌-◌, ◌≤◌, ◌<◌, ◌≡◌, refl, ◌∷◌, leb, ◌==◌, if◌then◌else◌, Bool-cases, inl, inr,
  arith,
}
use cs594_dcn_f.Effects.{World, Ends, Gives, Gives-bind, Gives-mono, Gives-weak, Gives-Ends, pure}
use cs594_dcn_f.Pingpong.Api.{Call, Device, post_srq_recv}
use cs594_dcn_f.Pingpong.Loop.{pingpong_recv_wrid}
use cs594_dcn_f.Pingpong.Srq.Loop.{
  SrqRun, num_qp, SrqCounters, segment, post_recvs, pp_post_recv, refill, on_recv, on_send,
}
use cs594_dcn_f.Pingpong.Srq.Loop.Requests.{Anything, Counted, Inv, Never, Posted, receives, sends}

module _ (d : Device) (run : SrqRun) where
  pub post_recvs-Gives :
      (n i : ℕ) (w : World SrqCounters Call) → Gives (post_recvs d run n i w) (Posted w n i) Never
  unfolding post_recvs
  post_recvs-Gives zero i w = (refl, refl, refl, omega arith)
  post_recvs-Gives (suc n) i w =
      let c : Call = post_srq_recv run.ctx.srq pingpong_recv_wrid (segment d run) in
      let w' : World SrqCounters Call = record {
        state = w.state;
        log = (c, d.answer w.log c) ∷ w.log;
      } in
      elim (Bool-cases (d.answer w.log c == 0)) [
        | inl e ↦
            rw (e, Gives)
              (Gives-mono (post_recvs d run n (i + 1) w') (Posted w' n (i + 1)) (Posted w (suc n) i)
                Never (post_recvs-Gives n (i + 1) w') (λ more w'' h. ground arith))
        | inr e ↦ rw (e, Gives) (ground arith)
      ]

  pub refill-Gives :
      (routs : ℕ) (w : World SrqCounters Call)
      → routs ≤ run.rx_depth
      → Gives
          (refill d run routs w)
          (λ full w'.
            (w'.state ≡ w.state)
            × (sends w'.log ≡ sends w.log)
            × (receives w'.log + routs ≡ receives w.log + full)
            × (full ≡ run.rx_depth))
          Anything
  unfolding refill pp_post_recv
  refill-Gives routs w few =
      Gives-bind (post_recvs d run (run.rx_depth - routs) 0) _ w (Posted w (run.rx_depth - routs) 0)
        _ Anything
        (Gives-weak (post_recvs d run (run.rx_depth - routs) 0 w)
          (Posted w (run.rx_depth - routs) 0) Never Anything
          (post_recvs-Gives (run.rx_depth - routs) 0 w) (λ w' h. tt))
        (λ more w' h. ground arith)

  -- The number of receives after a completion, `left` of them before any refill.
  pub top_up-Gives :
      (left : ℕ) (w : World SrqCounters Call)
      → num_qp run ≤ run.rx_depth
      → left ≤ run.rx_depth
      → Gives
          ((if leb left (num_qp run) then refill d run left else pure left) w)
          (λ full w'.
            (w'.state ≡ w.state)
            × (sends w'.log ≡ sends w.log)
            × (receives w'.log + left ≡ receives w.log + full)
            × (num_qp run ≤ full)
            × (full ≤ run.rx_depth))
          Anything
  top_up-Gives left w deep few = elim (Bool-cases (leb left (num_qp run))) [
    | inl e ↦ rw (e) (
        Gives-mono (refill d run left w) _ _ Anything (refill-Gives left w few)
          (λ full w' h. ground arith))
    | inr e ↦ rw (e) (ground arith)
  ]

  pub on_recv-Between :
      (w : World SrqCounters Call)
      → num_qp run ≤ run.rx_depth
      → 0 < num_qp run
      → Inv run w
      → Ends (on_recv d run w) (Counted run 0 w) Anything
  unfolding on_recv
  on_recv-Between w deep some_ inv =
      Gives-Ends
        (if leb (w.state.routs - 1) (num_qp run)
          then refill d run (w.state.routs - 1)
          else pure (w.state.routs - 1))
        _ w _ (Counted run 0 w) Anything
        (top_up-Gives (w.state.routs - 1) w deep (omega (arith, inv.few_left)))
        (λ full w' h. (
          record {
            sent = omega (arith, h.1, inv.sent);
            sends_few = omega (arith, h.1, inv.sends_few);
            received = omega (arith, h.2, inv.received, inv.enough_left);
            enough_left = h.3;
            few_left = h.4;
            as_many = inv.as_many;
          },
          refl,
        ))

  pub on_send-Between :
      (w : World SrqCounters Call) → Inv run w → Ends (on_send d run w) (Counted run 1 w) Anything
  unfolding on_send
  on_send-Between w inv = (
    record {
      sent = omega (arith, inv.sent);
      sends_few = inv.sends_few;
      received = inv.received;
      enough_left = inv.enough_left;
      few_left = inv.few_left;
      as_many = inv.as_many;
    },
    refl,
  )
