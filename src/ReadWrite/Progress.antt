-- ===== src/ReadWrite/Progress.antt =====
-- The two states of a connection of rdma-common.c in 02_read-write, over a run of completions.
use cs594_dcn_f.Prelude.{
  ℕ, ◌+◌, ◌^◌, ◌≤◌, ◌<◌, ◌≡◌, ◌≢◌, refl, sym, ap, ◌∙◌, Bool, ◌&&◌, ◌==◌, Bool-cases, inl, inr, true,
  false, Option, none, some, List, [], ◌∷◌, length, ltb, if◌then◌else◌, arith,
}
use mathlib.Core.Path.{ap₂, subst}
use cs594_dcn_f.Effects.{World, Log, final, Ends, Ends-bind, Ends-mono, Ends-same, ◌>>=◌}
use cs594_dcn_f.Rdma.{
  Verbs, Call, Wc, WrOpcode, wr_rdma_write, wr_rdma_read, post_send, update, update_self, place,
  load,
}
use cs594_dcn_f.ReadWrite.Common.{
  Polled, changed, others, Mode, m_write, m_read, msg_done, ConnMemory, Connection, MessageType,
  msg_mr, next_state, send_message, post_receives, send_mr, on_recv_type, on_recv, on_sent,
  start_rdma, finish, advance, on_completion, drain_cq, message_request, rdma_request, ss_mr_sent,
  rs_mr_recv,
}

abbrev pub rdma_weight : WrOpcode → ℕ
rdma_weight wr_rdma_write = 1
rdma_weight wr_rdma_read = 1
rdma_weight _ = 0

-- How many RDMA operations have been posted.
abbrev pub rdma_posts : Log Call → ℕ
rdma_posts [] = 0
rdma_posts ((post_send qp wr, r) ∷ log) = rdma_weight wr.opcode + rdma_posts log
rdma_posts (_ ∷ log) = rdma_posts log

abbrev pub states : Option Connection → Option (ℕ × ℕ)
states none = none
states (some conn) = some (conn.send_state, conn.recv_state)

-- The connection at `p` has the states `a` and `b`, and `k` RDMA operations have been posted.
abbrev pub At : ℕ → ℕ → ℕ → ℕ → World ConnMemory Call → Type 0
At p a b k w = (states (w.state.heap p) ≡ some (a, b)) × (rdma_posts w.log ≡ k)

-- 1 for the states that start the RDMA operation.
abbrev pub starts : ℕ → ℕ → ℕ
starts a b = if (a == ss_mr_sent) && (b == rs_mr_recv) then 1 else 0

abbrev pub AtMost : ℕ → World ConnMemory Call → Type 0
AtMost k w = rdma_posts w.log ≤ k

module _ (v : Verbs) (p : ℕ) (pos : p ≢ 0) where
  send_message-At :
      (a b k : ℕ) (w : World ConnMemory Call)
      → At p a b k w
      → Ends (send_message v p w) (At p a b k) (AtMost k)
  unfolding send_message message_request
  send_message-At a b k w h = ground arith

  post_receives-At :
      (a b k : ℕ) (w : World ConnMemory Call)
      → At p a b k w
      → Ends (post_receives v p w) (At p a b k) (AtMost k)
  unfolding post_receives
  post_receives-At a b k w h = ground arith

  -- The connection behind `At`.
  abbrev Found : ℕ → ℕ → World ConnMemory Call → Type 0
  Found a b w =
      (conn : Connection) × (w.state.heap p ≡ some conn)
      × (conn.send_state ≡ a)
      × (conn.recv_state ≡ b)

  found : (a b k : ℕ) (w : World ConnMemory Call) → At p a b k w → Found a b w
  found a b k w h = go (w.state.heap p) refl
    where
      go : (o : Option Connection) → w.state.heap p ≡ o → Found a b w
      go none e = absurd (ground arith)
      go (some conn) e = (conn, e, ground arith, ground arith)

  abbrev placed : World ConnMemory Call → Connection → World ConnMemory Call
  placed = place p

  placed-At :
      (a b k : ℕ) (w : World ConnMemory Call) (conn : Connection)
      → conn.send_state ≡ a
      → conn.recv_state ≡ b
      → rdma_posts w.log ≡ k
      → At p a b k (placed w conn)
  placed-At a b k w conn ha hb hk =
      (ap states (update_self w.state.heap p (some conn)) ∙ ap₂ (λ x y. some (x, y)) ha hb, hk)

  send_mr-At :
      (a b k : ℕ) (w : World ConnMemory Call)
      → At p a b k w
      → Ends (send_mr v p w) (At p a b k) (AtMost k)
  unfolding send_mr
  send_mr-At a b k w h =
      let (conn, here, ha, hb) = found a b k w h in
      let conn' : Connection = record conn {
        sending = record {
          type = msg_mr;
          mr = record {
            addr = v.mr_addr conn.rdma_remote_mr;
            rkey = v.mr_rkey conn.rdma_remote_mr;
          };
        };
      } in
      ground (arith, send_message-At a b k (placed w conn') (placed-At a b k w conn' ha hb h.1))

  on_recv_type-At :
      (a b k : ℕ) (conn : Connection) (t : MessageType) (w : World ConnMemory Call)
      → At p a b k w
      → conn.send_state ≡ a
      → conn.recv_state ≡ b
      → Ends (on_recv_type v p conn t w) (At p a b k) (AtMost k)
  unfolding on_recv_type
  on_recv_type-At a b k conn msg_mr w h ha hb =
      Ends-bind (post_receives v p) _ (placed w (record conn { peer_mr = conn.received.mr }))
        (At p a b k) (At p a b k) (AtMost k)
        (post_receives-At a b k (placed w (record conn { peer_mr = conn.received.mr }))
          (placed-At a b k w _ ha hb h.1))
        (λ _ w' h'. elim (Bool-cases (conn.send_state == 0)) [
          | inl e ↦ rw e (send_mr-At a b k w' h')
          | inr e ↦ rw e h'
        ])
  on_recv_type-At a b k conn _ w h ha hb = h

  on_recv-At :
      (a b k : ℕ) (conn : Connection) (w : World ConnMemory Call)
      → conn.send_state ≡ a
      → conn.recv_state ≡ b
      → rdma_posts w.log ≡ k
      → Ends (on_recv v p conn w) (At p a (next_state b) k) (AtMost k)
  unfolding on_recv
  on_recv-At a b k conn w ha hb hk =
      let conn' : Connection = record conn { recv_state = next_state conn.recv_state } in
      on_recv_type-At a (next_state b) k conn' conn.received.type (placed w conn')
        (placed-At a (next_state b) k w conn' ha (ap next_state hb) hk) ha (ap next_state hb)

  on_sent-At :
      (a b k : ℕ) (conn : Connection) (w : World ConnMemory Call)
      → conn.send_state ≡ a
      → conn.recv_state ≡ b
      → rdma_posts w.log ≡ k
      → Ends (on_sent v p conn w) (At p (next_state a) b k) (AtMost k)
  unfolding on_sent
  on_sent-At a b k conn w ha hb hk =
      placed-At (next_state a) b k w (record conn { send_state = next_state conn.send_state })
        (ap next_state ha) hb hk

  weight : (mode : Mode) (conn : Connection) → rdma_weight (rdma_request v mode p conn).opcode ≡ 1
  unfolding rdma_request
  weight m_write conn = refl
  weight m_read conn = refl

  start_rdma-At :
      (mode : Mode) (a b k : ℕ) (conn : Connection) (w : World ConnMemory Call)
      → conn.send_state ≡ a
      → conn.recv_state ≡ b
      → rdma_posts w.log ≡ k
      → Ends (start_rdma v mode p conn w) (At p a b (1 + k)) (AtMost (1 + k))
  unfolding start_rdma
  start_rdma-At mode a b k conn w ha hb hk =
      let request = rdma_request v mode p conn in
      let answer = v.answer w.log (post_send conn.qp request) in
      let posted : World ConnMemory Call = record {
        state = w.state;
        log = (post_send conn.qp request, answer) ∷ w.log;
      } in
      let counted : rdma_posts posted.log ≡ 1 + k = ap₂ ◌+◌ (weight mode conn) hk in
      let conn' : Connection = record conn { sending = record conn.sending { type = msg_done } } in
      let sends =
        send_message-At a b (1 + k) (placed posted conn')
          (placed-At a b (1 + k) posted conn' ha hb counted) in
      elim (Bool-cases (answer == 0)) [
        | inl e ↦ rw (e, Ends) sends
        | inr e ↦ rw (e, Ends) (omega (arith, counted))
      ]

  finish-At :
      (mode : Mode) (a b k : ℕ) (conn : Connection) (w : World ConnMemory Call)
      → At p a b k w
      → Ends (finish v mode conn w) (At p a b k) (AtMost k)
  unfolding finish
  finish-At mode a b k conn w h = h

  -- The states after the end of `on_completion` are as before; it posts an RDMA operation in them alone.
  advance-At :
      (mode : Mode) (a b k : ℕ) (conn : Connection) (w : World ConnMemory Call)
      → w.state.heap p ≡ some conn
      → conn.send_state ≡ a
      → conn.recv_state ≡ b
      → rdma_posts w.log ≡ k
      → Ends (advance v mode p conn w) (At p a b (starts a b + k)) (AtMost (starts a b + k))
  unfolding advance
  advance-At mode a b k conn w here ha hb hk = elim (Bool-cases ((a == 1) && (b == 1))) [
    | inl e ↦ ground (arith, start_rdma-At mode a b k conn w ha hb hk)
    | inr e ↦
        ground
          (arith, finish-At mode a b k conn w (ap states here ∙ ap₂ (λ x y. some (x, y)) ha hb, hk))
  ]

-- The states after a completion: a receive counts in one, anything else in the other.
abbrev pub next_send : Bool → ℕ → ℕ
next_send received a = if received then a else next_state a

abbrev pub next_recv : Bool → ℕ → ℕ
next_recv received b = if received then next_state b else b

module _ (v : Verbs) (mode : Mode) (wc : Wc) (pos : wc.wr_id ≢ 0) (a b k : ℕ)
    (w : World ConnMemory Call) (h : At wc.wr_id a b k w) where
  abbrev a' : ℕ
  a' = next_send (v.recv_bit wc.opcode) a

  abbrev b' : ℕ
  b' = next_recv (v.recv_bit wc.opcode) b

  branch :
      (r : Bool) (conn : Connection)
      → conn.send_state ≡ a
      → conn.recv_state ≡ b
      → Ends
          ((if r then on_recv v wc.wr_id conn else on_sent v wc.wr_id conn) w)
          (At wc.wr_id (next_send r a) (next_recv r b) k)
          (AtMost k)
  branch true conn ha hb = on_recv-At v wc.wr_id pos a b k conn w ha hb h.1
  branch false conn ha hb = on_sent-At v wc.wr_id pos a b k conn w ha hb h.1

  finish_branch :
      (w' : World ConnMemory Call)
      → At wc.wr_id a' b' k w'
      → Ends
          ((load wc.wr_id >>= λ conn'. advance v mode wc.wr_id conn') w')
          (At wc.wr_id a' b' (starts a' b' + k))
          (AtMost (starts a' b' + k))
  finish_branch w' h' =
      let (conn, here, ha, hb) = found v wc.wr_id pos a' b' k w' h' in
      ground (arith, advance-At v wc.wr_id pos mode a' b' k conn w' here ha hb h'.1)

  -- The states of a connection count its completions: after `on_completion`, from the states `a` and
  -- `b` and `k` RDMA operations, a receive has moved `b` on by one and any other completion `a`, and
  -- one more operation has been posted exactly if the states are now SS_MR_SENT and RS_MR_RECV; and if
  -- the program exits or is left spinning, it has posted no more than that.
  pub on_completion-At :
      Ends
        (on_completion v mode wc w)
        (At wc.wr_id a' b' (starts a' b' + k))
        (AtMost (starts a' b' + k))
  unfolding on_completion
  on_completion-At =
      let (conn, here, ha, hb) = found v wc.wr_id pos a b k w h in
      let handled =
        Ends-bind
          (if v.recv_bit wc.opcode then on_recv v wc.wr_id conn else on_sent v wc.wr_id conn)
          (λ _. load wc.wr_id >>= λ conn'. advance v mode wc.wr_id conn') w (At wc.wr_id a' b' k)
          (At wc.wr_id a' b' (starts a' b' + k)) (AtMost (starts a' b' + k))
          (Ends-mono _ (At wc.wr_id a' b' k) (AtMost k) (AtMost (starts a' b' + k))
            (branch (v.recv_bit wc.opcode) conn ha hb) (λ w' m. omega arith))
          (λ _ w' h'. finish_branch w' h') in
      ground (arith, handled)

-- A run of completions of one connection. `left` is the number of RDMA operations that it may still
-- start: one, until two completions have been handled.
abbrev pub left : ℕ → ℕ → ℕ
left a b = if ltb (a + b) 2 then 1 else 0

abbrev pub AllOf : ℕ → List Polled → Type 0
AllOf p [] = Unit
AllOf p (x ∷ xs) = (x.wc.wr_id ≡ p) × AllOf p xs

-- What others do to the connection leaves its states.
changed-states : (x : Polled) (o : Option Connection) → states (changed x o) ≡ states o
changed-states x none = refl
changed-states x (some conn) = refl

abbrev after_others : Polled → World ConnMemory Call → World ConnMemory Call
after_others x w = record w {
  state = record w.state {
    heap = update w.state.heap x.wc.wr_id (changed x (w.state.heap x.wc.wr_id));
  };
}

others-At :
    (x : Polled) (a b k : ℕ) (w : World ConnMemory Call)
    → At x.wc.wr_id a b k w
    → At x.wc.wr_id a b k (after_others x w)
others-At x a b k w h =
    let p : ℕ = x.wc.wr_id in
    (
      ap states (update_self w.state.heap p (changed x (w.state.heap p)))
          ∙ changed-states x (w.state.heap p)
          ∙ h.0,
      h.1,
    )

-- A completion counts once, and what it posts it takes from what is left.
step_budget :
    (r : Bool) (a b : ℕ)
    → a + b + 1 < 2 ^ 32
    → (next_send r a + next_recv r b ≡ a + b + 1)
      × (left (next_send r a) (next_recv r b) + starts (next_send r a) (next_recv r b) ≤ left a b)
step_budget r a b small = ground arith

drain_cq-Ends :
    (v : Verbs) (mode : Mode) (p : ℕ) (pos : p ≢ 0) (xs : List Polled) (a b k most : ℕ)
    (w : World ConnMemory Call)
    → AllOf p xs
    → a + b + length xs < 2 ^ 32
    → At p a b k w
    → left a b + k ≤ most
    → Ends (drain_cq v mode xs w) (AtMost most) (AtMost most)
unfolding drain_cq others
drain_cq-Ends v mode p pos [] a b k most w all small h room = omega arith
drain_cq-Ends v mode p pos (x ∷ xs) a b k most w all small h room =
    let r = v.recv_bit x.wc.opcode in
    let w₁ : World ConnMemory Call = after_others x w in
    let budget = step_budget r a b (omega arith) in
    Ends-bind (on_completion v mode x.wc) (λ _. drain_cq v mode xs) w₁
      (At x.wc.wr_id (next_send r a) (next_recv r b) (starts (next_send r a) (next_recv r b) + k))
      (AtMost most) (AtMost most)
      (Ends-mono (on_completion v mode x.wc w₁) _ _ (AtMost most)
        (on_completion-At v mode x.wc (λ e. pos (sym all.0 ∙ e)) a b k w₁
          (others-At x a b k w (subst (λ q. At q a b k w) (sym all.0) h)))
        (λ w' m. omega (arith, budget)))
      (λ _ w' h'.
        drain_cq-Ends v mode p pos xs (next_send r a) (next_recv r b)
          (starts (next_send r a) (next_recv r b) + k) most w' all.1 (omega (arith, budget))
          (subst
            (λ q.
              At q (next_send r a) (next_recv r b) (starts (next_send r a) (next_recv r b) + k) w')
            all.0 h')
          (omega (arith, budget)))

-- However the completions of a connection are mixed, whatever messages arrive between them, whenever the
-- connection is established, and whatever the libraries answer: from a
-- connection whose states are `a` and `b`, any run of fewer than 2 ^ 32 - (a + b) completions
-- posts at most one RDMA operation, and none if two completions have been handled before.
pub drain_cq-AtMost :
    (v : Verbs) (mode : Mode) (p : ℕ) (xs : List Polled) (a b k : ℕ) (w : World ConnMemory Call)
    → p ≢ 0
    → AllOf p xs
    → a + b + length xs < 2 ^ 32
    → At p a b k w
    → rdma_posts (final (drain_cq v mode xs w)).log ≤ left a b + k
drain_cq-AtMost v mode p xs a b k w pos all small h =
    Ends-same (drain_cq v mode xs w) (AtMost (left a b + k))
      (drain_cq-Ends v mode p pos xs a b k (left a b + k) w all small h (omega arith))
