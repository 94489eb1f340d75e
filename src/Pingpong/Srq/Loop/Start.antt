-- ===== src/Pingpong/Srq/Loop/Start.antt =====
-- The counters of srq_pingpong.c when its loop begins.
use cs594_dcn_f.Prelude.{
  ℕ, zero, suc, ◌+◌, ◌≤◌, ◌<◌, ◌≡◌, refl, sym, ap, ◌∙◌, Bool, true, false, Option, none, some, List,
  [], ◌∷◌, length, ◌==◌, if◌then◌else◌, arith,
}
use cs594_dcn_f.Effects.{
  World, Ends, Ends-bind, halt, jump, ◌>>=◌, ◌>>◌, deref, skip, get, put, call,
}
use cs594_dcn_f.Pingpong.Api.{Call, Device, post_send}
use cs594_dcn_f.Pingpong.Loop.{pingpong_send_wrid}
use cs594_dcn_f.Pingpong.Loop.Credit.{bit}
use cs594_dcn_f.Pingpong.Srq.Context.{in_order}
use cs594_dcn_f.Pingpong.Srq.Loop.{
  SrqRun, num_qp, Pending, SrqCounters, element, set_element, both_pending, recv_pending, segment,
  pp_post_send, send_all, await_all, start,
}
use cs594_dcn_f.Pingpong.Srq.Loop.Requests.{
  ==→eq, sends, receives, busy, busy-length, busy-set_element, length-set_element, Inv, Anything,
}

element-beyond :
    {A : Type 0} (i j : ℕ) (x : A) (xs : List A)
    → i < j
    → element j (set_element i x xs) ≡ element j xs
element-beyond i j x [] h = refl
element-beyond zero zero x (y ∷ ys) h = absurd (omega (arith, h))
element-beyond zero (suc j) x (y ∷ ys) h = refl
element-beyond (suc i) zero x (y ∷ ys) h = absurd (omega (arith, h))
element-beyond (suc i) (suc j) x (y ∷ ys) h = element-beyond i j x ys (omega (arith, h))

busy-absent :
    (i : ℕ) (q : Pending) (ps : List Pending)
    → element i ps ≡ none
    → busy (set_element i q ps) ≡ busy ps
busy-absent i q [] e = refl
busy-absent zero q (p ∷ ps) e = cc
busy-absent (suc i) q (p ∷ ps) e = ap (◌+◌ (bit p.pending_send)) (busy-absent i q ps e)

-- Before the loop, with the first `i` elements of the array set: every send is pending, and the rest of the array is idle.
pub record Begun (run : SrqRun) (i : ℕ) (w : World SrqCounters Call) : Type 0 where
  pub sent : sends w.log ≡ busy w.state.pending
  pub idle :
      (j : ℕ) (p : Pending) → i ≤ j → element j w.state.pending ≡ some p → bit p.pending_send ≡ 0
  pub received : receives w.log ≡ w.state.routs
  pub full : w.state.routs ≡ run.rx_depth
  pub as_many : length w.state.pending ≡ num_qp run

module _ (d : Device) (run : SrqRun) where
  abbrev set_at : ℕ → Pending → World SrqCounters Call → World SrqCounters Call
  set_at i q w = record w { state = record w.state { pending = set_element i q w.state.pending } }

  later_idle :
      (i : ℕ) (q : Pending) (w : World SrqCounters Call)
      → Begun run i w
      → (j : ℕ) (p : Pending) → i + 1 ≤ j
      → element j (set_element i q w.state.pending) ≡ some p
      → bit p.pending_send ≡ 0
  later_idle i q w b j p far at =
      b.idle j p (omega (arith, far))
        (sym (element-beyond i j q w.state.pending (omega (arith, far))) ∙ at)

  set_busy :
      (i : ℕ) (q : Pending) (w : World SrqCounters Call)
      → Begun run i w
      → (o : Option Pending) → element i w.state.pending ≡ o
      → i < length w.state.pending
      → busy (set_element i q w.state.pending) ≡ busy w.state.pending + bit q.pending_send
  set_busy i q w b none e small = absurd (missing i w.state.pending e small)
    where
      missing : (i : ℕ) (ps : List Pending) → element i ps ≡ none → i < length ps → ⊥
      missing i [] e h = omega (arith, h)
      missing zero (p ∷ ps) e h = let clash = e in absurd (cc)
      missing (suc i) (p ∷ ps) e h = missing i ps e (omega (arith, h))
  set_busy i q w b (some p) e small =
      omega (arith, busy-set_element i p q w.state.pending e, b.idle i p (omega arith) e)

  awaited-Begun :
      (i : ℕ) (w : World SrqCounters Call)
      → i < num_qp run
      → Begun run i w
      → Begun run (i + 1) (set_at i recv_pending w)
  awaited-Begun i w small b = record {
    sent = omega (
      arith,
      b.sent,
      set_busy i recv_pending w b (element i w.state.pending) refl (rw (b.as_many) small),
    );
    idle = later_idle i recv_pending w b;
    received = b.received;
    full = b.full;
    as_many = length-set_element i recv_pending w.state.pending ∙ b.as_many;
  }

  sent-Begun :
      (i qp : ℕ) (w : World SrqCounters Call)
      → i < num_qp run
      → Begun run i w
      → Begun run (i + 1) (
          set_at i both_pending
            (record w { log = (post_send qp pingpong_send_wrid (segment d run), 0) ∷ w.log }))
  sent-Begun i qp w small b = record {
    sent = omega (
      arith,
      b.sent,
      set_busy i both_pending w b (element i w.state.pending) refl (rw (b.as_many) small),
    );
    idle = later_idle i both_pending w b;
    received = b.received;
    full = b.full;
    as_many = length-set_element i both_pending w.state.pending ∙ b.as_many;
  }

  await_all-Begun :
      (n i : ℕ) (w : World SrqCounters Call)
      → i + n ≡ num_qp run
      → Begun run i w
      → Ends (await_all d run n i w) (Begun run (num_qp run)) Anything
  unfolding await_all
  await_all-Begun zero i w all b = (let same : num_qp run ≡ i = omega (arith, all) in rw (same) b)
  await_all-Begun (suc n) i w all b =
      await_all-Begun n (i + 1) (set_at i recv_pending w) (omega (arith, all))
        (awaited-Begun i w (omega (arith, all)) b)

  send_all-Begun :
      (n i : ℕ) (w : World SrqCounters Call)
      → i + n ≡ num_qp run
      → Begun run i w
      → Ends (send_all d run n i w) (Begun run (num_qp run)) Anything
  unfolding send_all pp_post_send
  send_all-Begun zero i w all b = (let same : num_qp run ≡ i = omega (arith, all) in rw (same) b)
  send_all-Begun (suc n) i w all b = go (element i (in_order run.ctx)) (send_all-Begun n (i + 1))
    where
      Rest : Type 0
      Rest =
          (w : World SrqCounters Call)
          → i + 1 + n ≡ num_qp run
          → Begun run (i + 1) w
          → Ends (send_all d run n (i + 1) w) (Begun run (num_qp run)) Anything

      taken :
          (qp r : ℕ) (b' : Bool)
          → (b' ≡ true → r ≡ 0)
          → Rest
          → Ends
              (((if b' then skip else halt jump)
                  >> (get >>= λ s.
                      put (record s { pending = set_element i both_pending s.pending })
                      >> send_all d run n (i + 1)))
                (record w { log = (post_send qp pingpong_send_wrid (segment d run), r) ∷ w.log }))
              (Begun run (num_qp run))
              Anything
      taken qp r true h rest = rw (h refl) (
          rest
            (set_at i both_pending
              (record w { log = (post_send qp pingpong_send_wrid (segment d run), 0) ∷ w.log }))
            (omega (arith, all)) (sent-Begun i qp w (omega (arith, all)) b))
      taken qp r false h rest = tt

      go :
          (o : Option ℕ)
          → Rest
          → Ends
              (((deref o >>= λ qp. call d.answer (post_send qp pingpong_send_wrid (segment d run)))
                  >>= λ r.
                      (if r == 0 then skip else halt jump)
                      >> (get >>= λ s.
                          put (record s { pending = set_element i both_pending s.pending })
                          >> send_all d run n (i + 1)))
                w)
              (Begun run (num_qp run))
              Anything
      go none rest = tt
      go (some qp) rest =
          let r = d.answer w.log (post_send qp pingpong_send_wrid (segment d run)) in
          taken qp r (r == 0) (==→eq r) rest

  -- The loop begins with its invariant, on a client, which sends on every queue pair, and on a server: where as many receives are
  -- posted as `rx_depth`, which is at least the number of queue pairs, no send is, and the array is clear.
  pub start-Inv :
      (client : Bool) (w : World SrqCounters Call)
      → 0 < run.iters
      → num_qp run ≤ run.rx_depth
      → Begun run 0 w
      → Ends (start d run client w) (Inv run) Anything
  unfolding start
  start-Inv client w some_ deep b =
      Ends-bind (if client then send_all d run (num_qp run) 0 else await_all d run (num_qp run) 0)
        (λ u. get >>= λ s. put (record s { rcnt = 0; scnt = 0 })) w (Begun run (num_qp run))
        (Inv run) Anything (filled client)
        (λ u w' b'. record {
          sent = omega (arith, b'.sent);
          sends_few = omega (arith, b'.sent, busy-length w'.state.pending, b'.as_many);
          received = omega (arith, b'.received);
          enough_left = omega (arith, b'.full);
          few_left = omega (arith, b'.full);
          as_many = b'.as_many;
        })
    where
      filled :
          (c : Bool)
          → Ends
              ((if c then send_all d run (num_qp run) 0 else await_all d run (num_qp run) 0) w)
              (Begun run (num_qp run))
              Anything
      filled true = send_all-Begun (num_qp run) 0 w (omega arith) b
      filled false = await_all-Begun (num_qp run) 0 w (omega arith) b
