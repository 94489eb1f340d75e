-- ===== src/Pingpong/Srq/Loop/Begin.antt =====
-- What srq_pingpong.c does from a new context to its loop.
use cs594_dcn_f.Prelude.{
  ℕ, zero, suc, ◌≤◌, ◌<◌, ◌≡◌, refl, sym, ap, ◌∙◌, Bool, true, false, none, some, ◌∷◌, length, ltb,
  ◌==◌, if◌then◌else◌, arith,
}
use cs594_dcn_f.Effects.{
  World, Ends, Ends-bind, Gives-Ends, Gives-weak, halt, jump, ◌>>=◌, ◌>>◌, skip, get, put, call,
}
use cs594_dcn_f.Pingpong.Api.{req_notify_cq, Call, Device}
use cs594_dcn_f.Pingpong.Loop.Credit.{bit}
use cs594_dcn_f.Pingpong.Srq.Loop.{
  or_jump, L, SrqRun, num_qp, Pending, SrqCounters, element, start, nothing_pending, allocate,
  prepare, begin_loop, post_recvs, pp_post_recv,
}
use cs594_dcn_f.Pingpong.Srq.Loop.Requests.{sends, receives, busy, Inv, Anything, Posted, Never}
use cs594_dcn_f.Pingpong.Srq.Loop.Receives.{post_recvs-Gives}
use cs594_dcn_f.Pingpong.Srq.Loop.Start.{Begun, start-Inv}

all_posted : (n k : ℕ) → n ≤ k → ltb n k ≡ false → n ≡ k
all_posted n k few e = ground arith

busy-nothing_pending : (n : ℕ) → busy (nothing_pending n) ≡ 0
busy-nothing_pending zero = refl
busy-nothing_pending (suc n) = omega (arith, busy-nothing_pending n)

pub length-nothing_pending : (n : ℕ) → length (nothing_pending n) ≡ n
length-nothing_pending zero = refl
length-nothing_pending (suc n) = omega (arith, length-nothing_pending n)

idle-nothing_pending :
    (n j : ℕ) (p : Pending) → element j (nothing_pending n) ≡ some p → bit p.pending_send ≡ 0
idle-nothing_pending zero j p e = cc
idle-nothing_pending (suc n) zero p e =
    sym (ap (λ o. elim o [ none ↦ 0 | some q ↦ bit q.pending_send ]) e)
idle-nothing_pending (suc n) (suc j) p e = idle-nothing_pending n j p e

module _ (d : Device) (run : SrqRun) where
  -- Once the receives are posted.
  abbrev Prepared : World SrqCounters Call → Type 0
  Prepared w = (sends w.log ≡ 0) × (receives w.log ≡ run.rx_depth) × (w.state.routs ≡ run.rx_depth)

  prepare-Prepared :
      (w : World SrqCounters Call)
      → sends w.log ≡ 0
      → receives w.log ≡ 0
      → Ends (prepare d run w) Prepared Anything
  unfolding prepare pp_post_recv
  prepare-Prepared w none_sent none_posted =
      Gives-Ends (post_recvs d run run.rx_depth 0) _ w (Posted w run.rx_depth 0) Prepared Anything
        (Gives-weak (post_recvs d run run.rx_depth 0 w) (Posted w run.rx_depth 0) Never Anything
          (post_recvs-Gives d run run.rx_depth 0 w) (λ w' h. tt))
        (λ routs w' h. tested routs w' h (ltb routs run.rx_depth) refl)
    where
      tail : ℕ → L (Unit {0})
      tail routs = get >>= λ s. put (record s { routs = routs })

      notified : L (Unit {0})
      notified = call d.answer (req_notify_cq run.ctx.cq) >>= or_jump d run

      Full : ℕ → World SrqCounters Call → Type 0
      Full routs w' = (sends w'.log ≡ 0) × (receives w'.log ≡ run.rx_depth) × (routs ≡ run.rx_depth)

      answered :
          (routs : ℕ) (w' : World SrqCounters Call)
          → Full routs w'
          → (b : Bool) → Ends (((if b then skip else halt jump) >> tail routs) w') Prepared Anything
      answered routs w' full true = full
      answered routs w' full false = tt

      waits :
          (routs : ℕ) (w' : World SrqCounters Call)
          → Full routs w'
          → (b : Bool) → Ends (((if b then notified else skip) >> tail routs) w') Prepared Anything
      waits routs w' full true =
          let r = d.answer w'.log (req_notify_cq run.ctx.cq) in
          answered routs (record w' { log = (req_notify_cq run.ctx.cq, r) ∷ w'.log }) full (r == 0)
      waits routs w' full false = full

      enough :
          (routs : ℕ) (w' : World SrqCounters Call)
          → Posted w run.rx_depth 0 routs w'
          → ltb routs run.rx_depth ≡ false
          → Full routs w'
      enough routs w' h e =
          let all : routs ≡ run.rx_depth = all_posted routs run.rx_depth (omega (arith, h.3)) e in
          (omega (arith, h.1, none_sent), omega (arith, h.2, none_posted, all), all)

      tested :
          (routs : ℕ) (w' : World SrqCounters Call)
          → Posted w run.rx_depth 0 routs w'
          → (b : Bool) → ltb routs run.rx_depth ≡ b
          → Ends
              (((if b then halt jump else skip)
                  >> ((if run.use_event then notified else skip) >> tail routs))
                w')
              Prepared
              Anything
      tested routs w' h true e = tt
      tested routs w' h false e = waits routs w' (enough routs w' h e) run.use_event

  -- On a new context, on client and server, the loop begins with its invariant, unless the program jumps out before: where nothing
  -- has been posted, `iters` is positive and `rx_depth` is at least the number of queue pairs.
  pub begin_loop-Inv :
      (client : Bool) (w : World SrqCounters Call)
      → 0 < run.iters
      → num_qp run ≤ run.rx_depth
      → sends w.log ≡ 0
      → receives w.log ≡ 0
      → Ends (begin_loop d run client w) (Inv run) Anything
  unfolding begin_loop
  begin_loop-Inv client w some_ deep none_sent none_posted =
      Ends-bind (prepare d run >> allocate d run) (λ u. start d run client) w (Begun run 0)
        (Inv run) Anything
        (Ends-bind (prepare d run) (λ u. allocate d run) w Prepared (Begun run 0) Anything
          (prepare-Prepared w none_sent none_posted)
          (λ u w' h. record {
            sent = h.0 ∙ sym (busy-nothing_pending (num_qp run));
            idle = λ j p far at. idle-nothing_pending (num_qp run) j p at;
            received = h.1 ∙ sym h.2;
            full = h.2;
            as_many = length-nothing_pending (num_qp run);
          }))
        (λ u w' b. start-Inv d run client w' some_ deep b)
