-- ===== src/Pingpong/Srq/Main/Keeps.antt =====
-- What the exchange of srq_pingpong.c keeps: the things that it holds, and the size of its array.
use cs594_dcn_f.Prelude.{
  ℕ, zero, suc, ◌+◌, ◌-◌, ◌≤◌, ◌<◌, ◌≡◌, refl, ◌∙◌, Bool, true, false, not, ◌&&◌, ◌||◌, Option,
  none, some, List, [], ◌∷◌, length, ltb, leb, ◌==◌, if◌then◌else◌, arith,
}
use cs594_dcn_f.Effects.{
  World, Outcome, done, stop, exit_failure, fault, hung, jump, ◌>>=◌, ◌>>◌, skip, halt, pure, get,
  put, call, deref,
}
use cs594_dcn_f.Pingpong.Api.{Call, Device, post_srq_recv, post_send, get_cq_event, req_notify_cq}
use cs594_dcn_f.Pingpong.Context.Resources.{Held, held, after}
use cs594_dcn_f.Pingpong.Loop.{pingpong_send_wrid, pingpong_recv_wrid}
use cs594_dcn_f.Pingpong.Srq.Context.{in_order}
use cs594_dcn_f.Pingpong.Srq.Loop.{
  SrqRun, num_qp, Pending, SrqCounters, SrqWc, L, element, set_element, both_pending, recv_pending,
  clear_bits, segment, find_qp, post_recvs, pp_post_recv, pp_post_send, or_jump, refill, on_recv,
  on_send, send_and_wait, send_next, count, on_found, on_wc, on_wcs, on_poll, wait_event, exchange,
  send_all, await_all, start, acknowledge,
}
use cs594_dcn_f.Pingpong.Srq.Loop.Requests.{length-set_element}
use cs594_dcn_f.Pingpong.Srq.Main.{ping_pong}

element_in : {A : Type 0} (i : ℕ) (xs : List A) → i < length xs → (x : A) × (element i xs ≡ some x)
element_in i [] h = absurd (omega (arith, h))
element_in zero (x ∷ xs) h = (x, refl)
element_in (suc i) (x ∷ xs) h = element_in i xs (omega (arith, h))

-- An index that `find_qp` gives is one of the array.
find_qp-small :
    (qp_num : ℕ → ℕ) (qpn : ℕ) (qps : List ℕ) (i j : ℕ)
    → find_qp qp_num qpn qps i ≡ some j
    → j < i + length qps
unfolding find_qp
find_qp-small qp_num qpn [] i j e = cc
find_qp-small qp_num qpn (qp ∷ qps) i j e =
    go (qp_num qp == qpn) e (find_qp-small qp_num qpn qps (i + 1) j)
  where
    go :
        (b : Bool)
        → (if b then some i else find_qp qp_num qpn qps (i + 1)) ≡ some j
        → (find_qp qp_num qpn qps (i + 1) ≡ some j → j < i + 1 + length qps)
        → j < i + suc (length qps)
    go true e' ih = let same : i ≡ j = cc in omega (arith, same)
    go false e' ih = omega (arith, ih e')

module _ (d : Device) (run : SrqRun) (hs : Held) where
  abbrev pub Ok : World SrqCounters Call → Type 0
  Ok w = (held w.log ≡ some hs) × (length w.state.pending ≡ num_qp run)

  -- The function returns, jumps to a label or waits for ever; there is no fault.
  abbrev pub Sound : {A : Type 0} → Outcome SrqCounters Call A → Type 0
  Sound (done a w) = Ok w
  Sound (stop jump w) = Ok w
  Sound (stop hung w) = Unit
  Sound (stop fault w) = ⊥
  Sound (stop exit_failure w) = ⊥

  abbrev pub Keeps : {A : Type 0} → L A → Type 0
  Keeps m = (w : World SrqCounters Call) → Ok w → Sound (m w)

  bind-Keeps :
      {A B : Type 0} (m : L A) (f : A → L B) → Keeps m → ((a : A) → Keeps (f a)) → Keeps (m >>= f)
  bind-Keeps {A} {B} m f first rest w ok = go (m w) (first w ok)
    where
      go :
          (o : Outcome SrqCounters Call A)
          → Sound o
          → Sound (elim o as (λ _. Outcome SrqCounters Call B) [
            | done a w' ↦ f a w'
            | stop r w' ↦ stop r w'
          ])
      go (done a w') h = rest a w' h
      go (stop jump w') h = h
      go (stop hung w') h = h
      go (stop fault w') h = h
      go (stop exit_failure w') h = h

  if-Keeps : {A : Type 0} (b : Bool) (m n : L A) → Keeps m → Keeps n → Keeps (if b then m else n)
  if-Keeps true m n yes_ no_ = yes_
  if-Keeps false m n yes_ no_ = no_

  pure-Keeps : {A : Type 0} (a : A) → Keeps (pure a)
  pure-Keeps a w ok = ok

  -- A call that acquires nothing and gives nothing back.
  call-Keeps : (c : Call) → ((r : ℕ) → after c r hs ≡ some hs) → Keeps (call d.answer c)
  call-Keeps c neutral w ok = (rw (ok.0) (neutral (d.answer w.log c)), ok.1)

  get-Keeps :
      {A : Type 0} (f : SrqCounters → L A)
      → ((s : SrqCounters) → length s.pending ≡ num_qp run → Keeps (f s))
      → Keeps (get >>= f)
  get-Keeps f rest w ok = rest w.state ok.1 w ok

  put-Keeps : (s : SrqCounters) → length s.pending ≡ num_qp run → Keeps (put s)
  put-Keeps s size w ok = (ok.0, size)

  element-Keeps :
      {A B : Type 0} (i : ℕ) (xs : List A) (f : A → L B)
      → i < length xs
      → ((a : A) → Keeps (f a))
      → Keeps (deref (element i xs) >>= f)
  element-Keeps i xs f small rest = let found = element_in i xs small in rw (found.1) (rest found.0)

  or_jump-Keeps : (r : ℕ) → Keeps (or_jump d run r)
  or_jump-Keeps r = if-Keeps (r == 0) skip (halt jump) (λ w ok. ok) (λ w ok. ok)

  post_recvs-Keeps : (n i : ℕ) → Keeps (post_recvs d run n i)
  unfolding post_recvs
  post_recvs-Keeps zero i w ok = ok
  post_recvs-Keeps (suc n) i w ok =
      bind-Keeps (call d.answer (post_srq_recv run.ctx.srq pingpong_recv_wrid (segment d run))) _
        (call-Keeps (post_srq_recv run.ctx.srq pingpong_recv_wrid (segment d run)) (λ r. refl))
        (λ r.
          if-Keeps (r == 0) (post_recvs d run n (i + 1)) (pure i) (post_recvs-Keeps n (i + 1))
            (pure-Keeps i))
        w ok

  post_send-Keeps : (i : ℕ) → i < num_qp run → Keeps (pp_post_send d run i)
  unfolding pp_post_send
  post_send-Keeps i small =
      element-Keeps i (in_order run.ctx) _ small
        (λ qp. call-Keeps (post_send qp pingpong_send_wrid (segment d run)) (λ r. refl))

  refill-Keeps : (routs : ℕ) → Keeps (refill d run routs)
  unfolding refill pp_post_recv
  refill-Keeps routs =
      bind-Keeps (post_recvs d run (run.rx_depth - routs) 0) _
        (post_recvs-Keeps (run.rx_depth - routs) 0)
        (λ more.
          if-Keeps (ltb (routs + more) run.rx_depth) (halt jump) (pure (routs + more)) (λ w ok. ok)
            (λ w ok. ok))

  on_recv-Keeps : Keeps (on_recv d run)
  unfolding on_recv
  on_recv-Keeps w ok =
      bind-Keeps (if leb left (num_qp run) then refill d run left else pure left)
        (λ routs. put (record w.state { routs = routs; rcnt = w.state.rcnt + 1 }))
        (if-Keeps (leb left (num_qp run)) (refill d run left) (pure left) (refill-Keeps left)
          (pure-Keeps left))
        (λ routs. put-Keeps (record w.state { routs = routs; rcnt = w.state.rcnt + 1 }) ok.1) w ok
    where
      left : ℕ
      left = w.state.routs - 1

  on_send-Keeps : Keeps (on_send d run)
  unfolding on_send
  on_send-Keeps w ok = (ok.0, ok.1)

  count-Keeps : (wr_id : ℕ) → Keeps (count d run wr_id)
  unfolding count
  count-Keeps wr_id = if-Keeps (wr_id == pingpong_send_wrid) (on_send d run) _ on_send-Keeps (
      if-Keeps (wr_id == pingpong_recv_wrid) (on_recv d run) (halt jump) on_recv-Keeps (λ w ok. ok))

  -- A send on a queue pair, and its bits.
  set-Keeps :
      (i : ℕ) (q : Pending)
      → Keeps (get >>= λ s. put (record s { pending = set_element i q s.pending }))
  set-Keeps i q w ok = (ok.0, length-set_element i q w.state.pending ∙ ok.1)

  send_and_wait-Keeps : (i : ℕ) → i < num_qp run → Keeps (send_and_wait d run i)
  unfolding send_and_wait
  send_and_wait-Keeps i small =
      bind-Keeps (pp_post_send d run i) _ (post_send-Keeps i small)
        (λ r. bind-Keeps (or_jump d run r) _ (or_jump-Keeps r) (λ u. set-Keeps i both_pending))

  send_next-Keeps : (i wr_id : ℕ) → i < num_qp run → Keeps (send_next d run i wr_id)
  unfolding send_next
  send_next-Keeps i wr_id small w ok =
      element-Keeps i w.state.pending
        (λ p.
          let q = clear_bits wr_id p in
          put (record w.state { pending = set_element i q w.state.pending })
          >> (if ltb w.state.scnt run.iters && not (q.pending_recv || q.pending_send)
              then send_and_wait d run i
              else skip))
        (rw (ok.1) small)
        (λ p.
          let q = clear_bits wr_id p in
          let s = record w.state { pending = set_element i q w.state.pending } in
          bind-Keeps (put s) _ (put-Keeps s (length-set_element i q w.state.pending ∙ ok.1)) (λ u.
            if-Keeps (ltb w.state.scnt run.iters && not (q.pending_recv || q.pending_send))
              (send_and_wait d run i) skip (send_and_wait-Keeps i small) (λ w ok. ok)))
        w ok

  on_wc-Keeps : (c : SrqWc) → Keeps (on_wc d run c)
  unfolding on_wc on_found
  on_wc-Keeps c =
      if-Keeps c.wc.success
        (on_found d run (find_qp run.qp_num c.qp_num (in_order run.ctx) 0) c.wc.wr_id) (halt jump)
        (found (find_qp run.qp_num c.qp_num (in_order run.ctx) 0)
          (find_qp-small run.qp_num c.qp_num (in_order run.ctx) 0))
        (λ w ok. ok)
    where
      found :
          (o : Option ℕ)
          → ((j : ℕ) → o ≡ some j → j < 0 + num_qp run)
          → Keeps (on_found d run o c.wc.wr_id)
      found none small = λ w ok. ok
      found (some i) small =
          bind-Keeps (count d run c.wc.wr_id) (λ u. send_next d run i c.wc.wr_id)
            (count-Keeps c.wc.wr_id)
            (λ u. send_next-Keeps i c.wc.wr_id (omega (arith, small i refl)))

  on_wcs-Keeps : (cs : List SrqWc) → Keeps (on_wcs d run cs)
  unfolding on_wcs
  on_wcs-Keeps [] w ok = ok
  on_wcs-Keeps (c ∷ cs) w ok =
      bind-Keeps (on_wc d run c) (λ u. on_wcs d run cs) (on_wc-Keeps c) (λ u. on_wcs-Keeps cs) w ok

  on_poll-Keeps : (poll : Option (List SrqWc)) → Keeps (on_poll d run poll)
  unfolding on_poll
  on_poll-Keeps none = λ w ok. ok
  on_poll-Keeps (some cs) = on_wcs-Keeps cs

  counted-Keeps : Keeps (get >>= λ s. put (record s { num_cq_events = s.num_cq_events + 1 }))
  counted-Keeps w ok = (ok.0, ok.1)

  wait_event-Keeps : Keeps (wait_event d run)
  unfolding wait_event
  wait_event-Keeps =
      bind-Keeps (call d.answer (get_cq_event run.ctx.channel)) _
        (call-Keeps (get_cq_event run.ctx.channel) (λ r. refl))
        (λ r w ok. noted r (d.event_cq w.log) w ok)
    where
      noted :
          (r ev_cq : ℕ)
          → Keeps (
              or_jump d run r >>= λ u. get >>= λ s.
              put (record s { num_cq_events = s.num_cq_events + 1 }) >>= λ u'.
              or_jump d run (if ev_cq == run.ctx.cq then 0 else 1) >>= λ u''.
              call d.answer (req_notify_cq run.ctx.cq) >>= λ n. or_jump d run n)
      noted r ev_cq = bind-Keeps (or_jump d run r) _ (or_jump-Keeps r) (λ u w ok.
          bind-Keeps (or_jump d run (if ev_cq == run.ctx.cq then 0 else 1)) _
            (or_jump-Keeps (if ev_cq == run.ctx.cq then 0 else 1))
            (λ u'.
              bind-Keeps (call d.answer (req_notify_cq run.ctx.cq)) (or_jump d run)
                (call-Keeps (req_notify_cq run.ctx.cq) (λ r. refl)) or_jump-Keeps)
            (record w { state = record w.state { num_cq_events = w.state.num_cq_events + 1 } })
            (ok.0, ok.1))

  exchange-Keeps : (polls : List (Option (List SrqWc))) → Keeps (exchange d run polls)
  unfolding exchange
  exchange-Keeps [] w ok =
      if-Keeps (ltb w.state.rcnt run.iters || ltb w.state.scnt run.iters) (halt hung) skip
        (λ w ok. tt) (λ w ok. ok) w ok
  exchange-Keeps (poll ∷ polls) w ok =
      if-Keeps (ltb w.state.rcnt run.iters || ltb w.state.scnt run.iters)
        ((if run.use_event then wait_event d run else skip)
          >> on_poll d run poll
          >> exchange d run polls)
        skip
        (bind-Keeps ((if run.use_event then wait_event d run else skip) >> on_poll d run poll)
          (λ u. exchange d run polls)
          (bind-Keeps (if run.use_event then wait_event d run else skip) (λ u. on_poll d run poll)
            (if-Keeps run.use_event (wait_event d run) skip wait_event-Keeps (λ w ok. ok))
            (λ u. on_poll-Keeps poll))
          (λ u. exchange-Keeps polls))
        (λ w ok. ok) w ok

  send_all-Keeps : (n i : ℕ) → i + n ≤ num_qp run → Keeps (send_all d run n i)
  unfolding send_all
  send_all-Keeps zero i small w ok = ok
  send_all-Keeps (suc n) i small w ok =
      bind-Keeps (pp_post_send d run i) _ (post_send-Keeps i (omega (arith, small)))
        (λ r. bind-Keeps (or_jump d run r) _ (or_jump-Keeps r) (λ u w ok.
          send_all-Keeps n (i + 1) (omega (arith, small))
            (record w {
              state = record w.state { pending = set_element i both_pending w.state.pending };
            })
            (set-Keeps i both_pending w ok)))
        w ok

  await_all-Keeps : (n i : ℕ) → Keeps (await_all d run n i)
  unfolding await_all
  await_all-Keeps zero i w ok = ok
  await_all-Keeps (suc n) i w ok =
      await_all-Keeps n (i + 1)
        (record w {
          state = record w.state { pending = set_element i recv_pending w.state.pending };
        })
        (set-Keeps i recv_pending w ok)

  start-Keeps : (client : Bool) → Keeps (start d run client)
  unfolding start
  start-Keeps client =
      bind-Keeps (if client then send_all d run (num_qp run) 0 else await_all d run (num_qp run) 0)
        _
        (if-Keeps client (send_all d run (num_qp run) 0) (await_all d run (num_qp run) 0)
          (send_all-Keeps (num_qp run) 0 (omega arith)) (await_all-Keeps (num_qp run) 0))
        (λ u w ok. (ok.0, ok.1))

  pub ping_pong-Keeps :
      (client : Bool) (polls : List (Option (List SrqWc))) → Keeps (ping_pong d run client polls)
  unfolding ping_pong acknowledge
  ping_pong-Keeps client polls =
      bind-Keeps (start d run client >> exchange d run polls) (λ u. acknowledge d run)
        (bind-Keeps (start d run client) (λ u. exchange d run polls) (start-Keeps client)
          (λ u. exchange-Keeps polls))
        (λ u w ok. (rw (ok.0) refl, ok.1))
