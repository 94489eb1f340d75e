-- ===== src/Pingpong/Srq/Context.antt =====
-- The life of a `struct pingpong_context` in examples/libibverbs-examples/srq_pingpong.c:
-- `pp_init_ctx`, with the labels to which it jumps on an error, and `pp_close_ctx`.
pub mod Balance
pub mod Closing
use cs594_dcn_f.Prelude.{
  ℕ, zero, suc, Bool, true, false, not, Option, none, some, List, [], ◌∷◌, ◌==◌, if◌then◌else◌,
}
use cs594_dcn_f.Effects.{M, ◌>>=◌, ◌>>◌, skip, pure, call, call_}
use cs594_dcn_f.Pingpong.Api.{
  Kind, ctx_memory, buffer, device, comp_channel, protection_domain, memory_region,
  completion_queue, queue_pair, shared_receive_queue, qp_array, Call, acquire, release,
  modify_qp_init, Device,
}
use cs594_dcn_f.Pingpong.Context.{P}

-- `struct pingpong_context`; `self` is its address, `qp` that of the array of queue pairs, and a null pointer is 0.
-- `qps` are the elements of the array that have been set, the last one first.
pub record SrqContext : Type 0 where
  pub self : ℕ
  pub context : ℕ
  pub channel : ℕ
  pub pd : ℕ
  pub mr : ℕ
  pub cq : ℕ
  pub srq : ℕ
  pub qp : ℕ
  pub qps : List ℕ
  pub buf : ℕ

-- A list from its end.
abbrev pub backwards : List ℕ → List ℕ → List ℕ
backwards [] ys = ys
backwards (x ∷ xs) ys = backwards xs (x ∷ ys)

-- The array from its first element.
abbrev pub in_order : SrqContext → List ℕ
in_order c = backwards c.qps []

module _ (d : Device) where
  open d use {answer}

  -- The labels, each of which falls through to the next.
  unfoldable pub clean_ctx : SrqContext → P (Unit {0})
  clean_ctx c = call_ answer (release ctx_memory c.self)

  unfoldable pub clean_buffer : SrqContext → P (Unit {0})
  clean_buffer c = do call_ answer (release buffer c.buf); clean_ctx c

  unfoldable pub clean_device : SrqContext → P (Unit {0})
  clean_device c = do call_ answer (release device c.context); clean_buffer c

  unfoldable pub clean_comp_channel : SrqContext → P (Unit {0})
  clean_comp_channel c = do
    (if c.channel == 0 then skip else call_ answer (release comp_channel c.channel))
    clean_device c

  unfoldable pub clean_pd : SrqContext → P (Unit {0})
  clean_pd c = do call_ answer (release protection_domain c.pd); clean_comp_channel c

  unfoldable pub clean_mr : SrqContext → P (Unit {0})
  clean_mr c = do call_ answer (release memory_region c.mr); clean_pd c

  unfoldable pub clean_cq : SrqContext → P (Unit {0})
  clean_cq c = do call_ answer (release completion_queue c.cq); clean_mr c

  unfoldable pub clean_srq : SrqContext → P (Unit {0})
  clean_srq c = do call_ answer (release shared_receive_queue c.srq); clean_cq c

  -- The loop at `clean_qps`, from the last queue pair to the first, and the `free` behind it.
  unfoldable pub destroy_qps : List ℕ → SrqContext → P (Unit {0})
  destroy_qps [] c = do call_ answer (release qp_array c.qp); clean_srq c
  destroy_qps (qp ∷ qps) c = do call_ answer (release queue_pair qp); destroy_qps qps c

  -- Before `clean_qps_full` all elements have been set, so both labels begin with the last that has.
  unfoldable pub clean_qps : SrqContext → P (Unit {0})
  clean_qps c = destroy_qps c.qps c

  abbrev pub fail : P (Unit {0}) → P (Option SrqContext)
  fail clean = do clean; pure none

  -- The stages of `pp_init_ctx`, from the last to the first: the loop that brings the queue pairs to INIT,
  unfoldable pub init_ports : List ℕ → SrqContext → P (Option SrqContext)
  init_ports [] c = pure (some c)
  init_ports (qp ∷ qps) c = do
    r ← call answer (modify_qp_init qp)
    let rest = init_ports qps c
    (if r == 0 then rest else fail (clean_qps c))

  -- the loop that creates them,
  unfoldable pub create_qps : ℕ → SrqContext → P (Option SrqContext)
  create_qps zero c = init_ports (in_order c) c
  create_qps (suc n) c = do
    qp ← call answer (acquire queue_pair)
    let rest = create_qps n (record c { qps = qp ∷ c.qps })
    (if qp == 0 then fail (clean_qps c) else rest)

  unfoldable pub init_array : ℕ → SrqContext → P (Option SrqContext)
  init_array num_qp c = do
    qp ← call answer (acquire qp_array)
    (if qp == 0 then fail (clean_srq c) else create_qps num_qp (record c { qp = qp }))

  unfoldable pub init_srq : ℕ → SrqContext → P (Option SrqContext)
  init_srq num_qp c = do
    srq ← call answer (acquire shared_receive_queue)
    (if srq == 0 then fail (clean_cq c) else init_array num_qp (record c { srq = srq }))

  unfoldable pub init_cq : ℕ → SrqContext → P (Option SrqContext)
  init_cq num_qp c = do
    cq ← call answer (acquire completion_queue)
    (if cq == 0 then fail (clean_mr c) else init_srq num_qp (record c { cq = cq }))

  unfoldable pub init_mr : ℕ → SrqContext → P (Option SrqContext)
  init_mr num_qp c = do
    mr ← call answer (acquire memory_region)
    (if mr == 0 then fail (clean_pd c) else init_cq num_qp (record c { mr = mr }))

  unfoldable pub init_pd : ℕ → SrqContext → P (Option SrqContext)
  init_pd num_qp c = do
    pd ← call answer (acquire protection_domain)
    (if pd == 0 then fail (clean_comp_channel c) else init_mr num_qp (record c { pd = pd }))

  unfoldable pub init_channel : Bool → ℕ → SrqContext → P (Option SrqContext)
  init_channel use_event num_qp c =
      if use_event
      then (call answer (acquire comp_channel) >>= λ channel.
          if channel == 0
          then fail (clean_device c)
          else init_pd num_qp (record c { channel = channel }))
      else init_pd num_qp c

  unfoldable pub init_device : Bool → ℕ → SrqContext → P (Option SrqContext)
  init_device use_event num_qp c = do
    context ← call answer (acquire device)
    (if context == 0
        then fail (clean_buffer c)
        else init_channel use_event num_qp (record c { context = context }))

  unfoldable pub init_buffer : Bool → ℕ → SrqContext → P (Option SrqContext)
  init_buffer use_event num_qp c = do
    buf ← call answer (acquire buffer)
    (if buf == 0 then fail (clean_ctx c) else init_device use_event num_qp (record c { buf = buf }))

  -- A context just allocated.
  abbrev pub blank : ℕ → SrqContext
  blank self = record {
    self = self;
    context = 0;
    channel = 0;
    pd = 0;
    mr = 0;
    cq = 0;
    srq = 0;
    qp = 0;
    qps = [];
    buf = 0;
  }

  unfoldable pub pp_init_ctx : Bool → ℕ → P (Option SrqContext)
  pp_init_ctx use_event num_qp = do
    self ← call answer (acquire ctx_memory)
    (if self == 0 then pure none else init_buffer use_event num_qp (blank self))

  -- A release whose failure ends `pp_close_ctx` with 1.
  abbrev pub close_or_fail : Kind → ℕ → P ℕ → P ℕ
  close_or_fail kind p rest = do r ← call answer (release kind p); (if r == 0 then rest else pure 1)

  abbrev pub close_channel : SrqContext → P ℕ → P ℕ
  close_channel c rest = if c.channel == 0 then rest else close_or_fail comp_channel c.channel rest

  -- What is behind its loop.
  unfoldable pub close_ctx : SrqContext → P ℕ
  close_ctx c = do
    call_ answer (release qp_array c.qp)
    (close_or_fail shared_receive_queue c.srq (
        close_or_fail completion_queue c.cq (
          close_or_fail memory_region c.mr (
            close_or_fail protection_domain c.pd (
              close_channel c (
                close_or_fail device c.context (do
                  call_ answer (release buffer c.buf)
                  call_ answer (release ctx_memory c.self)
                  pure 0)))))))

  -- The loop of `pp_close_ctx`, from the first queue pair on.
  unfoldable pub close_qps : List ℕ → SrqContext → P ℕ
  close_qps [] c = close_ctx c
  close_qps (qp ∷ qps) c = do
    r ← call answer (release queue_pair qp)
    let rest = close_qps qps c
    (if r == 0 then rest else pure 1)

  unfoldable pub pp_close_ctx : SrqContext → P ℕ
  pp_close_ctx c = close_qps (in_order c) c
