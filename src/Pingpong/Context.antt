-- ===== src/Pingpong/Context.antt =====
-- The life of a `struct pingpong_context` in examples/libibverbs-examples/rc_pingpong.c:
-- `pp_init_ctx`, with the labels to which it jumps on an error, and `pp_close_ctx`.
use cs594_dcn_f.Prelude.{
  ℕ, Bool, true, false, not, ◌&&◌, ◌||◌, Option, none, some, ◌==◌, if◌then◌else◌,
}
pub mod Resources
pub mod Init
pub mod Close
pub mod Fits
pub mod Life
use cs594_dcn_f.Effects.{fault, halt, M, ◌>>=◌, ◌>>◌, skip, pure, call, call_, stored}
use cs594_dcn_f.Pingpong.Api.{
  Kind, ctx_memory, buffer, device, comp_channel, protection_domain, device_memory, memory_region,
  completion_queue, queue_pair, Call, acquire, release, query_device, query_device_ex, memcpy_dm,
  modify_qp_init, Device,
}

-- The options that `pp_init_ctx` reads, static variables and arguments.
pub record Options : Type 0 where
  pub use_contiguous_mr : Bool
  pub use_odp : Bool
  pub use_dm : Bool
  pub use_upstream : Bool
  pub use_event : Bool
  pub inlr_recv : ℕ

-- `struct pingpong_context`; `self` is its address, and a null pointer is 0.
pub record PingpongContext : Type 0 where
  pub self : ℕ
  pub context : ℕ
  pub channel : ℕ
  pub pd : ℕ
  pub mr : ℕ
  pub dm : ℕ
  pub cq : ℕ
  pub qp : ℕ
  pub buf : ℕ

-- These functions keep no memory but the context, which they pass on.
abbrev pub P : Type 0 → Type 0
P A = M (Unit {0}) Call A

module _ (d : Device) (o : Options) where
  open d use {answer}

  -- The labels, each of which falls through to the next.
  unfoldable pub clean_ctx : PingpongContext → P (Unit {0})
  clean_ctx c = call_ answer (release ctx_memory c.self)

  unfoldable pub clean_buffer : PingpongContext → P (Unit {0})
  clean_buffer c = do
    (if o.use_contiguous_mr then skip else call_ answer (release buffer c.buf))
    clean_ctx c

  unfoldable pub clean_device : PingpongContext → P (Unit {0})
  clean_device c = do call_ answer (release device c.context); clean_buffer c

  unfoldable pub clean_comp_channel : PingpongContext → P (Unit {0})
  clean_comp_channel c = do
    (if c.channel == 0 then skip else call_ answer (release comp_channel c.channel))
    clean_device c

  unfoldable pub clean_pd : PingpongContext → P (Unit {0})
  clean_pd c = do call_ answer (release protection_domain c.pd); clean_comp_channel c

  unfoldable pub clean_dm : PingpongContext → P (Unit {0})
  clean_dm c = do
    (if c.dm == 0 then skip else call_ answer (release device_memory c.dm))
    clean_pd c

  unfoldable pub clean_mr : PingpongContext → P (Unit {0})
  clean_mr c = do call_ answer (release memory_region c.mr); clean_dm c

  unfoldable pub clean_cq : PingpongContext → P (Unit {0})
  clean_cq c = do call_ answer (release completion_queue c.cq); clean_mr c

  unfoldable pub clean_qp : PingpongContext → P (Unit {0})
  clean_qp c = do call_ answer (release queue_pair c.qp); clean_cq c

  abbrev pub fail : P (Unit {0}) → P (Option PingpongContext)
  fail clean = do clean; pure none

  -- The stages of `pp_init_ctx`, from the last to the first.
  unfoldable pub init_port : PingpongContext → P (Option PingpongContext)
  init_port c = do
    r ← call answer (modify_qp_init c.qp)
    (if r == 0 then pure (some c) else fail (clean_qp c))

  unfoldable pub init_qp : PingpongContext → P (Option PingpongContext)
  init_qp c = do
    qp ← call answer (acquire queue_pair)
    (if qp == 0 then fail (clean_cq c) else init_port (record c { qp = qp }))

  unfoldable pub init_cq : PingpongContext → P (Option PingpongContext)
  init_cq c = do
    cq ← call answer (acquire completion_queue)
    (if cq == 0 then fail (clean_mr c) else init_qp (record c { cq = cq }))

  -- The buffer is filled, and copied to device memory. A failed copy jumps to `clean_dm`.
  -- The `memset` faults if the library has given the region no address; a buffer of the program's own is not null here.
  unfoldable pub fill_buffer : PingpongContext → P (Option PingpongContext)
  fill_buffer c0 = do
    let c = record c0 { buf = if o.use_contiguous_mr then d.mr_addr c0.mr else c0.buf }
    (if o.use_contiguous_mr && (c.buf == 0)
        then halt fault
        else if o.use_dm
        then (call answer memcpy_dm >>= λ r. if r == 0 then init_cq c else fail (clean_dm c))
        else init_cq c)

  unfoldable pub register : PingpongContext → P (Option PingpongContext)
  register c = do
    mr ← call answer (acquire memory_region)
    (if mr == 0 then fail (clean_dm c) else fill_buffer (record c { mr = mr }))

  -- On-demand paging: the device must support it, by the interface that is used.
  unfoldable pub register_odp : PingpongContext → P (Option PingpongContext)
  register_odp c = do
    r ← call answer (if o.use_upstream then query_device_ex else query_device)
    supported ← stored (if o.use_upstream then d.upstream_odp else d.exp_odp)
    (if (r == 0) && supported then register c else fail (clean_pd c))

  -- Device memory.
  unfoldable pub alloc_dm : PingpongContext → P (Option PingpongContext)
  alloc_dm c = do
    dm ← call answer (acquire device_memory)
    (if dm == 0 then fail (clean_pd c) else register (record c { dm = dm }))

  unfoldable pub register_dm : PingpongContext → P (Option PingpongContext)
  register_dm c = do
    r ← call answer query_device
    available ← stored d.has_dm
    (if (r == 0) && available then alloc_dm c else fail (clean_pd c))

  unfoldable pub init_mr : PingpongContext → P (Option PingpongContext)
  init_mr c =
      if not o.use_contiguous_mr && not o.use_odp && not o.use_dm
      then register c
      else if o.use_odp
      then register_odp c
      else if o.use_contiguous_mr
      then register c
      else register_dm c

  unfoldable pub init_pd : PingpongContext → P (Option PingpongContext)
  init_pd c = do
    pd ← call answer (acquire protection_domain)
    (if pd == 0 then fail (clean_comp_channel c) else init_mr (record c { pd = pd }))

  unfoldable pub init_channel : PingpongContext → P (Option PingpongContext)
  init_channel c =
      if o.use_event
      then (call answer (acquire comp_channel) >>= λ channel.
          if channel == 0 then fail (clean_device c) else init_pd (record c { channel = channel }))
      else init_pd c

  -- The query for inline receives only prints a warning.
  unfoldable pub init_device : PingpongContext → P (Option PingpongContext)
  init_device c = do
    context ← call answer (acquire device)
    (if context == 0
        then fail (clean_buffer c)
        else ((if o.inlr_recv == 0 then skip else call_ answer query_device)
            >> init_channel (record c { context = context })))

  unfoldable pub init_buffer : PingpongContext → P (Option PingpongContext)
  init_buffer c =
      if o.use_contiguous_mr
      then init_device c
      else (call answer (acquire buffer) >>= λ buf.
          if buf == 0 then fail (clean_ctx c) else init_device (record c { buf = buf }))

  unfoldable pub pp_init_ctx : P (Option PingpongContext)
  pp_init_ctx = do
    self ← call answer (acquire ctx_memory)
    (if self == 0
        then pure none
        else init_buffer (record {
          self = self;
          context = 0;
          channel = 0;
          pd = 0;
          mr = 0;
          dm = 0;
          cq = 0;
          qp = 0;
          buf = 0;
        }))

  -- A release whose failure ends `pp_close_ctx` with 1.
  abbrev pub close_or_fail : Kind → ℕ → P ℕ → P ℕ
  close_or_fail kind p rest = do r ← call answer (release kind p); (if r == 0 then rest else pure 1)

  abbrev pub close_if : Bool → Kind → ℕ → P ℕ → P ℕ
  close_if b kind p rest = if b then close_or_fail kind p rest else rest

  unfoldable pub pp_close_ctx : PingpongContext → P ℕ
  pp_close_ctx c = close_or_fail queue_pair c.qp (
      close_or_fail completion_queue c.cq (
        close_or_fail memory_region c.mr (
          close_if o.use_dm device_memory c.dm (
            close_or_fail protection_domain c.pd (
              close_if (not (c.channel == 0)) comp_channel c.channel (
                close_or_fail device c.context (do
                  (if o.use_contiguous_mr then skip else call_ answer (release buffer c.buf))
                  call_ answer (release ctx_memory c.self)
                  pure 0)))))))
