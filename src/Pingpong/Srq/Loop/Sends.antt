-- ===== src/Pingpong/Srq/Loop/Sends.antt =====
-- How srq_pingpong.c goes on behind a completion: the bit that is cleared, and the next message.
use cs594_dcn_f.Prelude.{
  ℕ, ◌+◌, ◌≤◌, ◌<◌, ◌≡◌, refl, ap, ◌∙◌, Bool, true, false, not, ◌&&◌, ◌||◌, Option, none, some,
  List, ◌∷◌, length, ltb, ◌==◌, if◌then◌else◌, ltb→lt, arith,
}
use cs594_dcn_f.Effects.{World, Ends, halt, jump, ◌>>=◌, ◌>>◌, deref, skip, get, put, call}
use cs594_dcn_f.Pingpong.Api.{Call, Device, post_send}
use cs594_dcn_f.Pingpong.Loop.{pingpong_send_wrid}
use cs594_dcn_f.Pingpong.Loop.Credit.{bit}
use cs594_dcn_f.Pingpong.Srq.Context.{in_order}
use cs594_dcn_f.Pingpong.Srq.Loop.{
  SrqRun, Pending, SrqCounters, element, set_element, both_pending, clear_bits, segment,
  pp_post_send, send_and_wait, send_next,
}
use cs594_dcn_f.Pingpong.Srq.Loop.Requests.{
  ==→eq, Anything, Between, Inv, busy, busy-length, busy-set_element, element-set_element,
  length-set_element,
}

module _ (d : Device) (run : SrqRun) where
  -- Once the bit is cleared, the invariant holds again.
  pub cleared-Inv :
      (k i wr_id : ℕ) (p : Pending) (w : World SrqCounters Call)
      → element i w.state.pending ≡ some p
      → bit p.pending_send ≡ k + bit (clear_bits wr_id p).pending_send
      → Between run k w
      → Inv run (record w {
        state = record w.state { pending = set_element i (clear_bits wr_id p) w.state.pending };
      })
  cleared-Inv k i wr_id p w e cleared mid = record {
    sent =
        omega
          (arith, mid.sent, cleared, busy-set_element i p (clear_bits wr_id p) w.state.pending e);
    sends_few = mid.sends_few;
    received = mid.received;
    enough_left = mid.enough_left;
    few_left = mid.few_left;
    as_many = length-set_element i (clear_bits wr_id p) w.state.pending ∙ mid.as_many;
  }

  -- A send that is taken, on a queue pair where none was pending.
  pub sending-Inv :
      (i qp : ℕ) (q : Pending) (w : World SrqCounters Call)
      → element i w.state.pending ≡ some q
      → bit q.pending_send ≡ 0
      → w.state.scnt < run.iters
      → Inv run w
      → Inv run (record {
        state = record w.state { pending = set_element i both_pending w.state.pending };
        log = (post_send qp pingpong_send_wrid (segment d run), 0) ∷ w.log;
      })
  sending-Inv i qp q w e idle more inv = record {
    sent = omega (arith, more_busy, inv.sent);
    sends_few = omega (arith, more_busy, inv.sent, enough, same, inv.as_many);
    received = inv.received;
    enough_left = inv.enough_left;
    few_left = inv.few_left;
    as_many = same ∙ inv.as_many;
  }
    where
      after : List Pending
      after = set_element i both_pending w.state.pending

      same : length after ≡ length w.state.pending
      same = length-set_element i both_pending w.state.pending

      enough : busy after ≤ length after
      enough = busy-length after

      more_busy : busy after ≡ busy w.state.pending + 1
      more_busy = omega (arith, busy-set_element i q both_pending w.state.pending e, idle)

  pub send_and_wait-Inv :
      (i : ℕ) (q : Pending) (w : World SrqCounters Call)
      → element i w.state.pending ≡ some q
      → bit q.pending_send ≡ 0
      → w.state.scnt < run.iters
      → Inv run w
      → Ends (send_and_wait d run i w) (Inv run) Anything
  unfolding send_and_wait pp_post_send
  send_and_wait-Inv i q w e idle more inv = go (element i (in_order run.ctx))
    where
      taken :
          (qp r : ℕ) (b : Bool)
          → (b ≡ true → r ≡ 0)
          → Ends
              (((if b then skip else halt jump)
                  >> (get >>= λ s.
                      put (record s { pending = set_element i both_pending s.pending })))
                (record {
                  state = w.state;
                  log = (post_send qp pingpong_send_wrid (segment d run), r) ∷ w.log;
                }))
              (Inv run)
              Anything
      taken qp r true h = rw (h refl) (sending-Inv i qp q w e idle more inv)
      taken qp r false h = tt

      go :
          (o : Option ℕ)
          → Ends
              (((deref o >>= λ qp. call d.answer (post_send qp pingpong_send_wrid (segment d run)))
                  >>= λ r.
                      (if r == 0 then skip else halt jump)
                      >> (get >>= λ s.
                          put (record s { pending = set_element i both_pending s.pending })))
                w)
              (Inv run)
              Anything
      go none = tt
      go (some qp) =
          let r = d.answer w.log (post_send qp pingpong_send_wrid (segment d run)) in
          taken qp r (r == 0) (==→eq r)

  -- The bit of a completion that is cleared: the `k` sends that it accounts for were pending.
  pub send_next-Inv :
      (k i wr_id : ℕ) (w : World SrqCounters Call)
      → ((p : Pending)
          → element i w.state.pending ≡ some p
          → bit p.pending_send ≡ k + bit (clear_bits wr_id p).pending_send)
      → Between run k w
      → Ends (send_next d run i wr_id w) (Inv run) Anything
  unfolding send_next
  send_next-Inv k i wr_id w cleared mid = go (element i w.state.pending) refl
    where
      go :
          (o : Option Pending)
          → element i w.state.pending ≡ o
          → Ends
              ((deref o >>= λ p.
                  let q = clear_bits wr_id p in
                  put (record w.state { pending = set_element i q w.state.pending })
                  >> (if ltb w.state.scnt run.iters && not (q.pending_recv || q.pending_send)
                      then send_and_wait d run i
                      else skip))
                w)
              (Inv run)
              Anything
      go none e = tt
      go (some p) e =
          next (ltb w.state.scnt run.iters) (clear_bits wr_id p).pending_recv
            (clear_bits wr_id p).pending_send refl refl
        where
          w' : World SrqCounters Call
          w' = record w {
            state = record w.state { pending = set_element i (clear_bits wr_id p) w.state.pending };
          }

          inv : Inv run w'
          inv = cleared-Inv k i wr_id p w e (cleared p e) mid

          next :
              (more r s : Bool)
              → ltb w.state.scnt run.iters ≡ more
              → (clear_bits wr_id p).pending_send ≡ s
              → Ends
                  ((if more && not (r || s) then send_and_wait d run i else skip) w')
                  (Inv run)
                  Anything
          next true false false m none_left =
              send_and_wait-Inv i (clear_bits wr_id p) w'
                (element-set_element i p (clear_bits wr_id p) w.state.pending e) (ap bit none_left)
                (ltb→lt w.state.scnt run.iters m) inv
          next true false true m none_left = inv
          next true true s m none_left = inv
          next false r s m none_left = inv
