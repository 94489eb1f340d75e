-- ===== src/Pingpong/Srq/Loop.antt =====
-- The exchange of examples/libibverbs-examples/srq_pingpong.c: `pp_post_recv`, `pp_post_send`, `find_qp` and the part of
-- `main` behind the connection. The counters are natural numbers: `rx_depth`, `num_qp` and `iters` are at least 1, and the
-- bits of each `ctx->pending[i]` are two Booleans.
pub mod Requests
pub mod Receives
pub mod Sends
pub mod Credit
pub mod Start
pub mod Begin
pub mod Search
use cs594_dcn_f.Prelude.{
  ℕ, zero, suc, ◌+◌, ◌-◌, Bool, true, false, not, ◌&&◌, ◌||◌, Option, none, some, List, [], ◌∷◌,
  length, ltb, leb, ◌==◌, if◌then◌else◌,
}
use cs594_dcn_f.Effects.{
  stored, M, World, Outcome, done, stop, jump, hung, ◌>>=◌, ◌>>◌, skip, halt, pure, get, put, call,
  call_, deref,
}
use cs594_dcn_f.Pingpong.Api.{
  Kind, pending_array, dest_memory, Sge, Call, Device, acquire, release, post_srq_recv, post_send,
  get_cq_event, req_notify_cq, ack_cq_events,
}
use cs594_dcn_f.Pingpong.Context.{P}
use cs594_dcn_f.Pingpong.Loop.{Wc, pingpong_recv_wrid, pingpong_send_wrid}
use cs594_dcn_f.Pingpong.Srq.Context.{SrqContext, in_order, pp_close_ctx}

-- What stays fixed while `main` runs; `qp_num` is a field of the library's queue pairs.
pub record SrqRun : Type 0 where
  pub ctx : SrqContext
  pub size : ℕ
  pub rx_depth : ℕ
  pub iters : ℕ
  pub use_event : Bool
  pub qp_num : ℕ → ℕ

-- `num_qp`.
abbrev pub num_qp : SrqRun → ℕ
num_qp run = length (in_order run.ctx)

-- The bits of an element of `ctx->pending`.
pub record Pending : Type 0 where
  pub pending_recv : Bool
  pub pending_send : Bool

pub record SrqCounters : Type 0 where
  pub routs : ℕ
  pub rcnt : ℕ
  pub scnt : ℕ
  pub pending : List Pending
  pub num_cq_events : ℕ

-- `struct ibv_wc`: the fields of the other programs' completions, and the queue pair's number.
pub record SrqWc : Type 0 where
  pub wc : Wc
  pub qp_num : ℕ

abbrev pub L : Type 0 → Type 0
L A = M SrqCounters Call A

-- An element of an array.
abbrev pub element {ℓ} : {A : Type ℓ} → ℕ → List A → Option A
element i [] = none
element zero (x ∷ xs) = some x
element (suc i) (x ∷ xs) = element i xs

abbrev pub set_element {ℓ} : {A : Type ℓ} → ℕ → A → List A → List A
set_element i y [] = []
set_element zero y (x ∷ xs) = y ∷ xs
set_element (suc i) y (x ∷ xs) = x ∷ set_element i y xs

abbrev pub both_pending : Pending
both_pending = record { pending_recv = true; pending_send = true }

abbrev pub recv_pending : Pending
recv_pending = record { pending_recv = true; pending_send = false }

-- `pending &= ~wr_id`.
unfoldable pub clear_bits : ℕ → Pending → Pending
clear_bits wr_id p = record {
  pending_recv = p.pending_recv && not (wr_id == pingpong_recv_wrid);
  pending_send = p.pending_send && not (wr_id == pingpong_send_wrid);
}

-- The segment of all requests.
abbrev pub segment : Device → SrqRun → Sge
segment d run = record { addr = run.ctx.buf; length = run.size; lkey = d.mr_lkey run.ctx.mr }

-- The loop of `find_qp`, from the index `i` on; `none` is -1.
unfoldable pub find_qp : (ℕ → ℕ) → ℕ → List ℕ → ℕ → Option ℕ
find_qp qp_num qpn [] i = none
find_qp qp_num qpn (qp ∷ qps) i =
    let rest = find_qp qp_num qpn qps (i + 1) in if qp_num qp == qpn then some i else rest

-- What `calloc` gives.
abbrev pub nothing_pending : ℕ → List Pending
nothing_pending zero = []
nothing_pending (suc n) = record { pending_recv = false; pending_send = false } ∷ nothing_pending n

module _ (d : Device) (run : SrqRun) where
  open d use {answer}

  -- The loop of `pp_post_recv`, with `i` requests posted and `n` to go.
  unfoldable pub post_recvs : ℕ → ℕ → L ℕ
  post_recvs zero i = pure i
  post_recvs (suc n) i = do
    r ← call answer (post_srq_recv run.ctx.srq pingpong_recv_wrid (segment d run))
    let rest = post_recvs n (i + 1)
    (if r == 0 then rest else pure i)

  unfoldable pub pp_post_recv : ℕ → L ℕ
  pp_post_recv n = post_recvs n 0

  unfoldable pub pp_post_send : ℕ → L ℕ
  pp_post_send qp_index = do
    qp ← deref (element qp_index (in_order run.ctx))
    call answer (post_send qp pingpong_send_wrid (segment d run))

  -- A failed call: `ret` becomes 1, and the program goes on at `out_pending`.
  abbrev pub or_jump : ℕ → L (Unit {0})
  or_jump r = if r == 0 then skip else halt jump

  -- The case of the `switch` for a receive: new receives are posted when no more than `num_qp` are left.
  unfoldable pub refill : ℕ → L ℕ
  refill routs = do
    more ← pp_post_recv (run.rx_depth - routs)
    (if ltb (routs + more) run.rx_depth then halt jump else pure (routs + more))

  unfoldable pub on_recv : L (Unit {0})
  on_recv = do
    s ← get
    let left = s.routs - 1
    routs ← (if leb left (num_qp run) then refill left else pure left)
    put (record s { routs = routs; rcnt = s.rcnt + 1 })

  unfoldable pub on_send : L (Unit {0})
  on_send = do s ← get; put (record s { scnt = s.scnt + 1 })

  unfoldable pub send_and_wait : ℕ → L (Unit {0})
  send_and_wait qp_ind = do
    r ← pp_post_send qp_ind
    or_jump r
    s ← get
    put (record s { pending = set_element qp_ind both_pending s.pending })

  -- The bit of the completion is cleared, and the next message is sent once none is left.
  unfoldable pub send_next : ℕ → ℕ → L (Unit {0})
  send_next qp_ind wr_id = do
    s ← get
    p ← deref (element qp_ind s.pending)
    let q = clear_bits wr_id p
    put (record s { pending = set_element qp_ind q s.pending })
    (if ltb s.scnt run.iters && not (q.pending_recv || q.pending_send)
        then send_and_wait qp_ind
        else skip)

  -- The `switch`.
  unfoldable pub count : ℕ → L (Unit {0})
  count wr_id =
      if wr_id == pingpong_send_wrid
      then on_send
      else if wr_id == pingpong_recv_wrid
      then on_recv
      else halt jump

  -- The body of the inner loop.
  unfoldable pub on_found : Option ℕ → ℕ → L (Unit {0})
  on_found none wr_id = halt jump
  on_found (some qp_ind) wr_id = do count wr_id; send_next qp_ind wr_id

  unfoldable pub on_wc : SrqWc → L (Unit {0})
  on_wc c =
      if c.wc.success
      then on_found (find_qp run.qp_num c.qp_num (in_order run.ctx) 0) c.wc.wr_id
      else halt jump

  unfoldable pub on_wcs : List SrqWc → L (Unit {0})
  on_wcs [] = skip
  on_wcs (wc ∷ wcs) = do on_wc wc; on_wcs wcs

  -- A poll, and the completions that it brings; `none` is a poll that fails.
  unfoldable pub on_poll : Option (List SrqWc) → L (Unit {0})
  on_poll none = halt jump
  on_poll (some wcs) = on_wcs wcs

  -- The wait for a completion event.
  unfoldable pub wait_event : L (Unit {0})
  wait_event = do
    r ← call answer (get_cq_event run.ctx.channel)
    ev_cq ← stored d.event_cq
    or_jump r
    s ← get
    put (record s { num_cq_events = s.num_cq_events + 1 })
    or_jump (if ev_cq == run.ctx.cq then 0 else 1)
    n ← call answer (req_notify_cq run.ctx.cq)
    or_jump n

  -- The outer loop, over what each poll brings. After the last poll the program waits for ever.
  unfoldable pub exchange : List (Option (List SrqWc)) → L (Unit {0})
  exchange [] = do
    s ← get
    (if ltb s.rcnt run.iters || ltb s.scnt run.iters then halt hung else skip)
  exchange (poll ∷ polls) = do
    s ← get
    let again = (if run.use_event then wait_event else skip) >> on_poll poll >> exchange polls
    (if ltb s.rcnt run.iters || ltb s.scnt run.iters then again else skip)

  -- The loops that fill `ctx->pending` from the index `i` on, `n` elements; the client sends on every queue pair.
  unfoldable pub send_all : ℕ → ℕ → L (Unit {0})
  send_all zero i = skip
  send_all (suc n) i = do
    r ← pp_post_send i
    or_jump r
    s ← get
    put (record s { pending = set_element i both_pending s.pending })
    send_all n (i + 1)

  unfoldable pub await_all : ℕ → ℕ → L (Unit {0})
  await_all zero i = skip
  await_all (suc n) i = do
    s ← get
    put (record s { pending = set_element i recv_pending s.pending })
    await_all n (i + 1)

  unfoldable pub start : Bool → L (Unit {0})
  start client = do
    (if client then send_all (num_qp run) 0 else await_all (num_qp run) 0)
    s ← get
    put (record s { rcnt = 0; scnt = 0 })

  unfoldable pub acknowledge : L (Unit {0})
  acknowledge = do s ← get; call_ answer (ack_cq_events run.ctx.cq s.num_cq_events)

  -- The array of pending bits, once there is memory for it.
  abbrev pub allocate : L (Unit {0})
  allocate = do s ← get; put (record s { pending = nothing_pending (num_qp run) })

  -- What `main` does with a new context: the first receives are posted.
  unfoldable pub prepare : L (Unit {0})
  prepare = do
    routs ← pp_post_recv run.rx_depth
    (if ltb routs run.rx_depth then halt jump else skip)
    (if run.use_event then (call answer (req_notify_cq run.ctx.cq) >>= or_jump) else skip)
    s ← get
    put (record s { routs = routs })

  -- From the new context to the loop, but for the connection, which leaves the counters alone.
  unfoldable pub begin_loop : Bool → L (Unit {0})
  begin_loop client = prepare >> allocate >> start client
