-- ===== src/Pingpong/Context/Init.antt =====
-- What `pp_init_ctx` of rc_pingpong.c holds when it returns.
use cs594_dcn_f.Prelude.{
  arith, ℕ, ◌≡◌, refl, sym, ap, ◌∙◌, Bool, true, false, not, ◌&&◌, Option, none, some, [], ◌∷◌,
  ◌==◌, if◌then◌else◌, eq→==,
}
use cs594_dcn_f.Effects.{
  fault, halt, World, Outcome, done, stop, Log, ◌>>◌, ◌>>=◌, skip, pure, call, call_,
}
use cs594_dcn_f.Pingpong.Api.{
  Kind, ctx_memory, buffer, device, comp_channel, protection_domain, device_memory, memory_region,
  completion_queue, queue_pair, Call, acquire, memcpy_dm, query_device, query_device_ex,
  modify_qp_init, Device,
}
use cs594_dcn_f.Pingpong.Context.{
  Options, PingpongContext, P, clean_ctx, clean_buffer, clean_device, clean_comp_channel, clean_pd,
  clean_dm, clean_mr, clean_cq, clean_qp, fail, init_port, init_qp, init_cq, fill_buffer, register,
  register_odp, alloc_dm, register_dm, init_mr, init_pd, init_channel, init_device, init_buffer,
  pp_init_ctx,
}
use cs594_dcn_f.Pingpong.Context.Resources.{
  Held, held, with_ctx, with_buffer, with_device, with_channel, with_pd, with_dm, with_mr, with_cq,
  everything, Cleared, Clears, called, clean_ctx-Clears, clean_buffer-Clears, clean_device-Clears,
  clean_comp_channel-Clears, clean_pd-Clears, clean_dm-Clears, clean_mr-Clears, clean_cq-Clears,
  clean_qp-Clears,
}

-- A contiguous region to which the library gives no address.
abbrev pub NullRegion : Device → Options → Type 0
NullRegion d o = (o.use_contiguous_mr ≡ true) × (mr : ℕ) × ((mr == 0) ≡ false) × (d.mr_addr mr ≡ 0)

-- The outcome of `pp_init_ctx`: a context with everything that it names held, or nothing held; or a fault, on a
-- region without an address.
abbrev pub AllOrNothing :
    Device → Options → Outcome (Unit {0}) Call (Option PingpongContext) → Type 0
AllOrNothing d o (done none w) = held w.log ≡ some []
AllOrNothing d o (done (some c) w) = held w.log ≡ some (everything o c)
AllOrNothing d o (stop r w) = (r ≡ fault) × NullRegion d o

-- The null pointer that is returned behind a label.
abbrev failed :
    Outcome (Unit {0}) Call (Unit {0}) → Outcome (Unit {0}) Call (Option PingpongContext)
failed r = elim r [ done a w ↦ done none w | stop s w ↦ stop s w ]

module _ (d : Device) (o : Options) where
  -- From `hs`, the rest of `pp_init_ctx` ends well.
  abbrev Inits : P (Option PingpongContext) → Held → Type 0
  Inits m hs = (w : World (Unit {0}) Call) → held w.log ≡ some hs → AllOrNothing d o (m w)

  fail-Inits : (clean : P (Unit {0})) (hs : Held) → Clears clean hs → Inits (fail d o clean) hs
  fail-Inits clean hs clears w h = go (clean w) (clears w h)
    where
      go : (r : Outcome (Unit {0}) Call (Unit {0})) → Cleared r → AllOrNothing d o (failed r)
      go (done a w') e = e
      go (stop s w') e = absurd e

  acquire-held :
      (k : Kind) (hs : Held) (w : World (Unit {0}) Call)
      → held w.log ≡ some hs
      → held (called d (acquire k) w).log ≡ (
          if d.answer w.log (acquire k) == 0
          then some hs
          else some ((k, d.answer w.log (acquire k)) ∷ hs))
  acquire-held k hs w h = rw h refl

  acquire-Inits :
      (k : Kind) (clean : P (Unit {0})) (next : ℕ → P (Option PingpongContext)) (hs : Held)
      → Clears clean hs
      → ((p : ℕ) → (p == 0) ≡ false → Inits (next p) ((k, p) ∷ hs))
      → Inits (call d.answer (acquire k) >>= λ p. if p == 0 then fail d o clean else next p) hs
  acquire-Inits k clean next hs clears rest w h = go (d.answer w.log (acquire k) == 0) refl
    where
      p : ℕ
      p = d.answer w.log (acquire k)

      w' : World (Unit {0}) Call
      w' = called d (acquire k) w

      go :
          (b : Bool)
          → (p == 0) ≡ b
          → AllOrNothing d o ((if p == 0 then fail d o clean else next p) w')
      go true e = rw e (fail-Inits clean hs clears w' (rw h (rw e refl)))
      go false e = rw e (rest p e w' (rw h (rw e refl)))

  -- A test after which the program goes on or jumps to a label.
  branch-Inits :
      (b : Bool) (clean : P (Unit {0})) (next : P (Option PingpongContext)) (hs : Held)
      → Clears clean hs
      → Inits next hs
      → Inits (if b then next else fail d o clean) hs
  branch-Inits true clean next hs clears rest = rest
  branch-Inits false clean next hs clears rest = fail-Inits clean hs clears

  choice-Inits :
      (b : Bool) (m m' : P (Option PingpongContext)) (hs : Held)
      → (b ≡ true → Inits m hs)
      → (b ≡ false → Inits m' hs)
      → Inits (if b then m else m') hs
  choice-Inits true m m' hs yes' no' = yes' refl
  choice-Inits false m m' hs yes' no' = no' refl

  init_port-Inits : (c : PingpongContext) → Inits (init_port d o c) (everything o c)
  unfolding init_port
  init_port-Inits c w h =
      branch-Inits (d.answer w.log (modify_qp_init c.qp) == 0) (clean_qp d o c) (pure (some c))
        (everything o c) (clean_qp-Clears d o c) (λ w' h'. h') (called d (modify_qp_init c.qp) w)
        (rw h refl)

  init_qp-Inits : (c : PingpongContext) → Inits (init_qp d o c) (with_cq o c)
  unfolding init_qp
  init_qp-Inits c =
      acquire-Inits queue_pair (clean_cq d o c) (λ p. init_port d o (record c { qp = p }))
        (with_cq o c) (clean_cq-Clears d o c) (λ p e. init_port-Inits (record c { qp = p }))

  init_cq-Inits : (c : PingpongContext) → Inits (init_cq d o c) (with_mr o c)
  unfolding init_cq
  init_cq-Inits c =
      acquire-Inits completion_queue (clean_mr d o c) (λ p. init_qp d o (record c { cq = p }))
        (with_mr o c) (clean_mr-Clears d o c) (λ p e. init_qp-Inits (record c { cq = p }))

  -- The context once `buf` is set.
  abbrev filled : PingpongContext → PingpongContext
  filled c = record c { buf = if o.use_contiguous_mr then d.mr_addr c.mr else c.buf }

  -- With a contiguous region the buffer is not the program's own, so what is held stays the same.
  with_buffer-filled : (c : PingpongContext) → with_buffer o (filled c) ≡ with_buffer o c
  with_buffer-filled c = go o.use_contiguous_mr
    where
      go :
          (b : Bool)
          → (if b
              then with_ctx o c
              else ((buffer, if b then d.mr_addr c.mr else c.buf) ∷ with_ctx o c))
            ≡ (if b then with_ctx o c else ((buffer, c.buf) ∷ with_ctx o c))
      go true = refl
      go false = refl

  -- What `with_mr` adds to the buffer.
  above_buffer : PingpongContext → Held → Held
  above_buffer c hs =
      (memory_region, c.mr) ∷ (if c.dm == 0 then pd else ((device_memory, c.dm) ∷ pd))
    where
      pd : Held
      pd =
          (protection_domain, c.pd)
          ∷ (if c.channel == 0
              then ((device, c.context) ∷ hs)
              else ((comp_channel, c.channel) ∷ (device, c.context) ∷ hs))

  with_mr-filled : (c : PingpongContext) → with_mr o (filled c) ≡ with_mr o c
  unfolding above_buffer
  with_mr-filled c = ap (above_buffer c) (with_buffer-filled c)

  null_address : (n : ℕ) → (n == 0) ≡ true → n ≡ 0
  null_address n e = ground arith

  null_region :
      (c : PingpongContext)
      → (c.mr == 0) ≡ false
      → (o.use_contiguous_mr && ((filled c).buf == 0)) ≡ true
      → NullRegion d o
  null_region c there e = go o.use_contiguous_mr refl e
    where
      go :
          (b : Bool)
          → o.use_contiguous_mr ≡ b
          → (b && ((if b then d.mr_addr c.mr else c.buf) == 0)) ≡ true
          → NullRegion d o
      go true t e = (t, c.mr, there, null_address (d.mr_addr c.mr) e)
      go false t e = absurd (cc)

  -- A copy to device memory that fails jumps past the release of the memory region.
  module _ (copies : o.use_dm ≡ true → (log : Log Call) → d.answer log memcpy_dm ≡ 0) where
    fill_buffer-Inits :
        (c : PingpongContext) → (c.mr == 0) ≡ false → Inits (fill_buffer d o c) (with_mr o c)
    unfolding fill_buffer
    fill_buffer-Inits c there w h =
        let held_mr : held w.log ≡ some (with_mr o (filled c)) =
          h ∙ ap some (sym (with_mr-filled c)) in
        choice-Inits (o.use_contiguous_mr && ((filled c).buf == 0)) (halt fault)
          (if o.use_dm
            then (call d.answer memcpy_dm >>= λ r.
                if r == 0 then init_cq d o (filled c) else fail d o (clean_dm d o (filled c)))
            else init_cq d o (filled c))
          (with_mr o (filled c)) (λ e w' h'. (refl, null_region c there e))
          (λ e.
            choice-Inits o.use_dm
              (call d.answer memcpy_dm >>= λ r.
                if r == 0 then init_cq d o (filled c) else fail d o (clean_dm d o (filled c)))
              (init_cq d o (filled c)) (with_mr o (filled c))
              (λ e w' h'.
                rw (eq→== (d.answer w'.log memcpy_dm) 0 (copies e w'.log))
                  (init_cq-Inits (filled c) (called d memcpy_dm w') (rw h' refl)))
              (λ e. init_cq-Inits (filled c)))
          w held_mr

    register-Inits : (c : PingpongContext) → Inits (register d o c) (with_dm o c)
    unfolding register
    register-Inits c =
        acquire-Inits memory_region (clean_dm d o c) (λ p. fill_buffer d o (record c { mr = p }))
          (with_dm o c) (clean_dm-Clears d o c) (λ p e. fill_buffer-Inits (record c { mr = p }) e)

    -- With no device memory there is nothing between the domain and the region.
    register_plain-Inits :
        (c : PingpongContext) → (c.dm == 0) ≡ true → Inits (register d o c) (with_pd o c)
    register_plain-Inits c e w h = register-Inits c w (rw e h)

    register_odp-Inits :
        (c : PingpongContext) → (c.dm == 0) ≡ true → Inits (register_odp d o c) (with_pd o c)
    unfolding register_odp
    register_odp-Inits c e w h =
        let query = if o.use_upstream then query_device_ex else query_device in
        let w' : World (Unit {0}) Call = called d query w in
        branch-Inits
          ((d.answer w.log query == 0)
            && (if o.use_upstream then d.upstream_odp else d.exp_odp) w'.log)
          (clean_pd d o c) (register d o c) (with_pd o c) (clean_pd-Clears d o c)
          (register_plain-Inits c e) w' (query-held o.use_upstream w h)
      where
        query-held :
            (b : Bool) (w : World (Unit {0}) Call)
            → held w.log ≡ some (with_pd o c)
            → held (called d (if b then query_device_ex else query_device) w).log
              ≡ some (with_pd o c)
        query-held true w h = rw h refl
        query-held false w h = rw h refl

    alloc_dm-Inits : (c : PingpongContext) → Inits (alloc_dm d o c) (with_pd o c)
    unfolding alloc_dm
    alloc_dm-Inits c =
        acquire-Inits device_memory (clean_pd d o c) (λ p. register d o (record c { dm = p }))
          (with_pd o c) (clean_pd-Clears d o c)
          (λ p e w h. register-Inits (record c { dm = p }) w (rw e h))

    register_dm-Inits : (c : PingpongContext) → Inits (register_dm d o c) (with_pd o c)
    unfolding register_dm
    register_dm-Inits c w h =
        branch-Inits ((d.answer w.log query_device == 0) && d.has_dm (called d query_device w).log)
          (clean_pd d o c) (alloc_dm d o c) (with_pd o c) (clean_pd-Clears d o c) (alloc_dm-Inits c)
          (called d query_device w) (rw h refl)

    init_mr-Inits : (c : PingpongContext) → (c.dm == 0) ≡ true → Inits (init_mr d o c) (with_pd o c)
    unfolding init_mr
    init_mr-Inits c e =
        choice-Inits (not o.use_contiguous_mr && not o.use_odp && not o.use_dm) _ _ (with_pd o c)
          (λ _. register_plain-Inits c e)
          (λ _.
            choice-Inits o.use_odp _ _ (with_pd o c) (λ _. register_odp-Inits c e)
              (λ _.
                choice-Inits o.use_contiguous_mr _ _ (with_pd o c) (λ _. register_plain-Inits c e)
                  (λ _. register_dm-Inits c)))

    init_pd-Inits :
        (c : PingpongContext) → (c.dm == 0) ≡ true → Inits (init_pd d o c) (with_channel o c)
    unfolding init_pd
    init_pd-Inits c e =
        acquire-Inits protection_domain (clean_comp_channel d o c)
          (λ p. init_mr d o (record c { pd = p })) (with_channel o c)
          (clean_comp_channel-Clears d o c) (λ p _. init_mr-Inits (record c { pd = p }) e)

    init_channel-Inits :
        (c : PingpongContext)
        → (c.dm == 0) ≡ true
        → (c.channel == 0) ≡ true
        → Inits (init_channel d o c) (with_device o c)
    unfolding init_channel
    init_channel-Inits c e none_yet =
        choice-Inits o.use_event _ _ (with_device o c)
          (λ _.
            acquire-Inits comp_channel (clean_device d o c)
              (λ p. init_pd d o (record c { channel = p })) (with_device o c)
              (clean_device-Clears d o c)
              (λ p some_channel w h.
                init_pd-Inits (record c { channel = p }) e w (rw some_channel h)))
          (λ _ w h. init_pd-Inits c e w (rw none_yet h))

    init_device-Inits :
        (c : PingpongContext)
        → (c.dm == 0) ≡ true
        → (c.channel == 0) ≡ true
        → Inits (init_device d o c) (with_buffer o c)
    unfolding init_device
    init_device-Inits c e none_yet =
        acquire-Inits device (clean_buffer d o c)
          (λ p.
            (if o.inlr_recv == 0 then skip else call_ d.answer query_device)
            >> init_channel d o (record c { context = p }))
          (with_buffer o c) (clean_buffer-Clears d o c)
          (λ p _. ask (o.inlr_recv == 0) (record c { context = p }) e none_yet)
      where
        ask :
            (b : Bool) (c : PingpongContext)
            → (c.dm == 0) ≡ true
            → (c.channel == 0) ≡ true
            → Inits
                ((if b then skip else call_ d.answer query_device) >> init_channel d o c)
                (with_device o c)
        ask true c e none_yet w h = init_channel-Inits c e none_yet w h
        ask false c e none_yet w h =
            init_channel-Inits c e none_yet (called d query_device w) (rw h refl)

    init_buffer-Inits :
        (c : PingpongContext)
        → (c.dm == 0) ≡ true
        → (c.channel == 0) ≡ true
        → Inits (init_buffer d o c) (with_ctx o c)
    unfolding init_buffer
    init_buffer-Inits c e none_yet =
        choice-Inits o.use_contiguous_mr _ _ (with_ctx o c)
          (λ own w h. init_device-Inits c e none_yet w (rw own h))
          (λ own.
            acquire-Inits buffer (clean_ctx d o c) (λ p. init_device d o (record c { buf = p }))
              (with_ctx o c) (clean_ctx-Clears d o c)
              (λ p _ w h. init_device-Inits (record c { buf = p }) e none_yet w (rw own h)))

-- `pp_init_ctx` holds everything or nothing. Whatever its options and wherever it fails, it returns, or faults in
-- its `memset` where contiguous memory is asked for and a region is given no address;
-- if it returns a context, then each thing that the context names is held, and nothing else; if it
-- returns null, all that it acquired has been given back, each thing once. The one condition is
-- that no copy to device memory fails.
pub pp_init_ctx-AllOrNothing :
    (d : Device) (o : Options)
    → (o.use_dm ≡ true → (log : Log Call) → d.answer log memcpy_dm ≡ 0)
    → AllOrNothing d o (pp_init_ctx d o (record { state = tt; log = [] }))
unfolding pp_init_ctx
pp_init_ctx-AllOrNothing d o copies =
    start (d.answer [] (acquire ctx_memory)) (d.answer [] (acquire ctx_memory) == 0) refl
  where
    start :
        (p : ℕ) (b : Bool)
        → (p == 0) ≡ b
        → AllOrNothing d o (
            (if p == 0
                then pure none
                else init_buffer d o (record {
                  self = p;
                  context = 0;
                  channel = 0;
                  pd = 0;
                  mr = 0;
                  dm = 0;
                  cq = 0;
                  qp = 0;
                  buf = 0;
                }))
              (record { state = tt; log = (acquire ctx_memory, p) ∷ [] }))
    start p true e = rw e (rw e refl)
    start p false e = rw e (
        init_buffer-Inits d o copies
          (record {
            self = p;
            context = 0;
            channel = 0;
            pd = 0;
            mr = 0;
            dm = 0;
            cq = 0;
            qp = 0;
            buf = 0;
          })
          refl refl (record { state = tt; log = (acquire ctx_memory, p) ∷ [] }) (rw e refl))
