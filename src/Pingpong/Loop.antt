-- ===== src/Pingpong/Loop.antt =====
-- The exchange of examples/libibverbs-examples/rc_pingpong.c: `pp_post_recv`, `pp_post_send` and the
-- loop of `main` over completions. The counters are natural numbers: `rx_depth` and `iters` are at
-- least 1, and the bits of `ctx->pending` are two Booleans.
pub mod Credit
pub mod Finish
pub mod Start
use cs594_dcn_f.Prelude.{
  ℕ, zero, suc, ◌+◌, ◌-◌, Bool, true, false, not, ◌&&◌, ◌||◌, Option, none, some, List, [], ◌∷◌,
  ltb, leb, ◌==◌, if◌then◌else◌,
}
use cs594_dcn_f.Effects.{
  stored, M, exit_failure, hung, ◌>>=◌, ◌>>◌, skip, halt, pure, get, put, call, call_,
}
use cs594_dcn_f.Pingpong.Api.{
  Sge, Call, Device, post_recv, post_send, get_cq_event, req_notify_cq, ack_cq_events,
}
use cs594_dcn_f.Pingpong.Context.{PingpongContext}

abbrev pub pingpong_recv_wrid : ℕ
pingpong_recv_wrid = 1

abbrev pub pingpong_send_wrid : ℕ
pingpong_send_wrid = 2

abbrev pub max_sge_len : ℕ
max_sge_len = 0xFFFFFFF

-- What stays fixed while `main` runs.
pub record Run : Type 0 where
  pub ctx : PingpongContext
  pub size : ℕ
  pub rx_depth : ℕ
  pub iters : ℕ
  pub use_event : Bool
  pub use_dm : Bool

-- The variables of the loop.
pub record Counters : Type 0 where
  pub routs : ℕ
  pub rcnt : ℕ
  pub scnt : ℕ
  pub pending_recv : Bool
  pub pending_send : Bool
  pub num_cq_events : ℕ

-- `struct ibv_exp_wc`, the fields that are read.
pub record Wc : Type 0 where
  pub success : Bool
  pub wr_id : ℕ

abbrev pub L : Type 0 → Type 0
L A = M Counters Call A

-- The segment of both requests.
abbrev pub segment : Device → Run → Sge
segment d run = record {
  addr = if run.use_dm then 0 else run.ctx.buf;
  length = if ltb run.size max_sge_len then run.size else max_sge_len;
  lkey = d.mr_lkey run.ctx.mr;
}

module _ (d : Device) (run : Run) where
  open d use {answer}

  -- The loop of `pp_post_recv`, with `i` requests posted and `n` to go.
  unfoldable pub post_recvs : ℕ → ℕ → L ℕ
  post_recvs zero i = pure i
  post_recvs (suc n) i = do
    r ← call answer (post_recv run.ctx.qp pingpong_recv_wrid (segment d run))
    let rest = post_recvs n (i + 1)
    (if r == 0 then rest else pure i)

  unfoldable pub pp_post_recv : ℕ → L ℕ
  pp_post_recv n = post_recvs n 0

  unfoldable pub pp_post_send : L ℕ
  pp_post_send = call answer (post_send run.ctx.qp pingpong_send_wrid (segment d run))

  -- The case of the `switch` for a receive: new receives are posted when at most one is left.
  unfoldable pub refill : ℕ → L ℕ
  refill routs = do
    more ← pp_post_recv (run.rx_depth - routs)
    (if ltb (routs + more) run.rx_depth then halt exit_failure else pure (routs + more))

  unfoldable pub on_recv : L (Unit {0})
  on_recv = do
    s ← get
    let left = s.routs - 1
    routs ← (if leb left 1 then refill left else pure left)
    put (record s { routs = routs; rcnt = s.rcnt + 1; pending_recv = false })

  unfoldable pub on_send : L (Unit {0})
  on_send = do s ← get; put (record s { scnt = s.scnt + 1; pending_send = false })

  -- The next message is sent once both completions of the last have been seen.
  unfoldable pub send_and_wait : L (Unit {0})
  send_and_wait = do
    r ← pp_post_send
    (if r == 0 then skip else halt exit_failure)
    s ← get
    put (record s { pending_recv = true; pending_send = true })

  unfoldable pub send_next : L (Unit {0})
  send_next = do
    s ← get
    (if ltb s.scnt run.iters && not (s.pending_recv || s.pending_send) then send_and_wait else skip)

  -- The body of the inner loop.
  unfoldable pub on_wc : Wc → L (Unit {0})
  on_wc wc = do
    (if wc.success then skip else halt exit_failure)
    (if wc.wr_id == pingpong_send_wrid
        then on_send
        else if wc.wr_id == pingpong_recv_wrid
        then on_recv
        else halt exit_failure)
    send_next

  unfoldable pub on_wcs : List Wc → L (Unit {0})
  on_wcs [] = skip
  on_wcs (wc ∷ wcs) = do on_wc wc; on_wcs wcs

  -- A poll, and the completions that it brings.
  unfoldable pub on_poll : Option (List Wc) → L (Unit {0})
  on_poll none = halt exit_failure
  on_poll (some wcs) = on_wcs wcs

  -- The wait for a completion event.
  unfoldable pub wait_event : L (Unit {0})
  wait_event = do
    r ← call answer (get_cq_event run.ctx.channel)
    ev_cq ← stored d.event_cq
    (if r == 0 then skip else halt exit_failure)
    s ← get
    put (record s { num_cq_events = s.num_cq_events + 1 })
    (if ev_cq == run.ctx.cq then skip else halt exit_failure)
    n ← call answer (req_notify_cq run.ctx.cq)
    (if n == 0 then skip else halt exit_failure)

  -- The outer loop, over what each poll brings; `none` is a poll that fails. After the last poll the
  -- program waits for ever.
  unfoldable pub exchange : List (Option (List Wc)) → L (Unit {0})
  exchange [] = do
    s ← get
    (if ltb s.rcnt run.iters || ltb s.scnt run.iters then halt hung else skip)
  exchange (poll ∷ polls) = do
    s ← get
    let again = (if run.use_event then wait_event else skip) >> on_poll poll >> exchange polls
    (if ltb s.rcnt run.iters || ltb s.scnt run.iters then again else skip)

  -- The first request for a completion event.
  unfoldable pub request_event : L (Unit {0})
  request_event = do
    n ← call answer (req_notify_cq run.ctx.cq)
    (if n == 0 then skip else halt exit_failure)

  -- The message that the client sends before any completion.
  unfoldable pub send_first : L (Unit {0})
  send_first = do
    r ← pp_post_send
    (if r == 0 then skip else halt exit_failure)
    s ← get
    put (record s { pending_send = true })

  -- What `main` does with a new context: the first receives are posted.
  unfoldable pub prepare : L (Unit {0})
  prepare = do
    routs ← pp_post_recv run.rx_depth
    (if ltb routs run.rx_depth then halt exit_failure else skip)
    (if run.use_event then request_event else skip)
    s ← get
    put (record s { routs = routs })

  -- What it does once the two sides are connected: the client, which was given the name of a server, sends
  -- the first message. The option that tries a no-operation first is off.
  unfoldable pub start : Bool → L (Unit {0})
  start client = do
    s ← get
    put (record s { pending_recv = true; pending_send = false })
    (if client then send_first else skip)
    t ← get
    put (record t { rcnt = 0; scnt = 0 })

  -- `main` from the new context to the end of the loop, but for the connection between the first two
  -- parts, which leaves the counters alone.
  unfoldable pub ping_pong : Bool → List (Option (List Wc)) → L (Unit {0})
  ping_pong client polls = prepare >> start client >> exchange polls
