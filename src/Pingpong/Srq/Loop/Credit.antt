-- ===== src/Pingpong/Srq/Loop/Credit.antt =====
-- The counters of srq_pingpong.c against the requests that have been posted.
use cs594_dcn_f.Prelude.{
  ℕ, ◌+◌, ◌≤◌, ◌<◌, ◌≡◌, refl, sym, ap, ◌∙◌, Bool, true, false, Option, none, some, ◌==◌,
  if◌then◌else◌, Bool-cases, inl, inr,
}
use cs594_dcn_f.Effects.{World, Ends, Ends-bind, halt, jump}
use cs594_dcn_f.Pingpong.Api.{Call, Device}
use cs594_dcn_f.Pingpong.Loop.{pingpong_send_wrid, pingpong_recv_wrid}
use cs594_dcn_f.Pingpong.Loop.Credit.{bit}
use cs594_dcn_f.Pingpong.Srq.Context.{in_order}
use cs594_dcn_f.Pingpong.Srq.Loop.{
  SrqRun, num_qp, Pending, SrqCounters, SrqWc, element, clear_bits, find_qp, on_recv, send_next,
  count, on_found, on_wc,
}
use cs594_dcn_f.Pingpong.Srq.Loop.Requests.{==→same, Anything, Counted, Inv, and_true}
use cs594_dcn_f.Pingpong.Srq.Loop.Receives.{on_recv-Between, on_send-Between}
use cs594_dcn_f.Pingpong.Srq.Loop.Sends.{send_next-Inv}

module _ (d : Device) (run : SrqRun) where
  -- How many sends a completion accounts for.
  abbrev accounts : ℕ → ℕ
  accounts wr_id = if wr_id == pingpong_send_wrid then 1 else 0

  count-Counted :
      (wr_id : ℕ) (w : World SrqCounters Call)
      → num_qp run ≤ run.rx_depth
      → 0 < num_qp run
      → Inv run w
      → Ends (count d run wr_id w) (Counted run (accounts wr_id) w) Anything
  unfolding count
  count-Counted wr_id w deep some_ inv = elim (Bool-cases (wr_id == pingpong_send_wrid)) [
    | inl e ↦ rw (e) (on_send-Between d run w inv)
    | inr e ↦ rw (e) (receive (wr_id == pingpong_recv_wrid))
  ]
    where
      receive :
          (b : Bool) → Ends ((if b then on_recv d run else halt jump) w) (Counted run 0 w) Anything
      receive true = on_recv-Between d run w deep some_ inv
      receive false = tt

  cleared-bit :
      (wr_id : ℕ) (p : Pending)
      → (wr_id ≡ pingpong_send_wrid → p.pending_send ≡ true)
      → bit p.pending_send ≡ accounts wr_id + bit (clear_bits wr_id p).pending_send
  unfolding clear_bits
  cleared-bit wr_id p genuine = elim (Bool-cases (wr_id == pingpong_send_wrid)) [
    | inl e ↦ (let on : p.pending_send ≡ true = genuine (==→same wr_id e) in rw (e, on) refl)
    | inr e ↦ rw (e) (and_true p.pending_send)
  ]

  -- Whatever completion is handled, that of a send only while one is pending on the queue pair that it names, the
  -- counters describe the requests again, unless the program jumps out of the loop.
  pub on_wc-SrqInv :
      (c : SrqWc) (w : World SrqCounters Call)
      → num_qp run ≤ run.rx_depth
      → 0 < num_qp run
      → ((i : ℕ) (p : Pending)
          → find_qp run.qp_num c.qp_num (in_order run.ctx) 0 ≡ some i
          → element i w.state.pending ≡ some p
          → c.wc.wr_id ≡ pingpong_send_wrid
          → p.pending_send ≡ true)
      → Inv run w
      → Ends (on_wc d run c w) (Inv run) Anything
  unfolding on_wc on_found
  on_wc-SrqInv c w deep some_ genuine inv = succeeded c.wc.success
    where
      found :
          (o : Option ℕ)
          → find_qp run.qp_num c.qp_num (in_order run.ctx) 0 ≡ o
          → Ends (on_found d run o c.wc.wr_id w) (Inv run) Anything
      found none e = tt
      found (some i) e =
          Ends-bind (count d run c.wc.wr_id) (λ u. send_next d run i c.wc.wr_id) w
            (Counted run (accounts c.wc.wr_id) w) (Inv run) Anything
            (count-Counted c.wc.wr_id w deep some_ inv)
            (λ u w' h.
              send_next-Inv d run (accounts c.wc.wr_id) i c.wc.wr_id w'
                (λ p at. cleared-bit c.wc.wr_id p (genuine i p e (ap (element i) (sym h.1) ∙ at)))
                h.0)

      succeeded :
          (b : Bool)
          → Ends
              ((if b
                  then on_found d run (find_qp run.qp_num c.qp_num (in_order run.ctx) 0) c.wc.wr_id
                  else halt jump)
                w)
              (Inv run)
              Anything
      succeeded true = found (find_qp run.qp_num c.qp_num (in_order run.ctx) 0) refl
      succeeded false = tt
