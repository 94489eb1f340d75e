-- ===== src/Pingpong/Srq/Context/Balance.antt =====
-- What `pp_init_ctx` of srq_pingpong.c holds when it returns.
use cs594_dcn_f.Prelude.{
  ℕ, zero, suc, ◌≡◌, refl, sym, ap, ◌∙◌, Bool, true, false, Option, none, some, List, [], ◌∷◌, ◌==◌,
  if◌then◌else◌,
}
use cs594_dcn_f.Effects.{World, Outcome, done, stop, ◌>>=◌, pure, call}
use cs594_dcn_f.Pingpong.Api.{
  Kind, ctx_memory, buffer, device, comp_channel, protection_domain, memory_region,
  completion_queue, queue_pair, shared_receive_queue, qp_array, Call, acquire, modify_qp_init,
  Device,
}
use cs594_dcn_f.Pingpong.Context.{P}
use cs594_dcn_f.Pingpong.Context.Resources.{
  Held, held, Cleared, Clears, called, release-held, release-Clears, unless-Clears,
}
use cs594_dcn_f.Pingpong.Srq.Context.{
  SrqContext, in_order, clean_ctx, clean_buffer, clean_device, clean_comp_channel, clean_pd,
  clean_mr, clean_cq, clean_srq, destroy_qps, clean_qps, fail, init_ports, create_qps, init_array,
  init_srq, init_cq, init_mr, init_pd, init_channel, init_device, init_buffer, blank, pp_init_ctx,
}

-- Queue pairs, held above the rest.
abbrev pub tag : List ℕ → Held → Held
tag [] hs = hs
tag (qp ∷ qps) hs = (queue_pair, qp) ∷ tag qps hs

module _ (c : SrqContext) where
  -- What a context holds at each stage.
  abbrev pub with_ctx : Held
  with_ctx = (ctx_memory, c.self) ∷ []

  abbrev pub with_buffer : Held
  with_buffer = (buffer, c.buf) ∷ with_ctx

  abbrev pub with_device : Held
  with_device = (device, c.context) ∷ with_buffer

  abbrev pub with_channel : Held
  with_channel = if c.channel == 0 then with_device else ((comp_channel, c.channel) ∷ with_device)

  abbrev pub with_pd : Held
  with_pd = (protection_domain, c.pd) ∷ with_channel

  abbrev pub with_mr : Held
  with_mr = (memory_region, c.mr) ∷ with_pd

  abbrev pub with_cq : Held
  with_cq = (completion_queue, c.cq) ∷ with_mr

  abbrev pub with_srq : Held
  with_srq = (shared_receive_queue, c.srq) ∷ with_cq

  abbrev pub with_array : Held
  with_array = (qp_array, c.qp) ∷ with_srq

  abbrev pub everything : Held
  everything = tag c.qps with_array

module _ (d : Device) (c : SrqContext) where
  clean_ctx-Clears : Clears (clean_ctx d c) (with_ctx c)
  unfolding clean_ctx
  clean_ctx-Clears w h = release-held d ctx_memory c.self [] w h

  clean_buffer-Clears : Clears (clean_buffer d c) (with_buffer c)
  unfolding clean_buffer
  clean_buffer-Clears = release-Clears d buffer c.buf (clean_ctx d c) (with_ctx c) clean_ctx-Clears

  clean_device-Clears : Clears (clean_device d c) (with_device c)
  unfolding clean_device
  clean_device-Clears =
      release-Clears d device c.context (clean_buffer d c) (with_buffer c) clean_buffer-Clears

  clean_comp_channel-Clears : Clears (clean_comp_channel d c) (with_channel c)
  unfolding clean_comp_channel
  clean_comp_channel-Clears =
      unless-Clears d (c.channel == 0) comp_channel c.channel (clean_device d c) (with_device c)
        clean_device-Clears

  clean_pd-Clears : Clears (clean_pd d c) (with_pd c)
  unfolding clean_pd
  clean_pd-Clears =
      release-Clears d protection_domain c.pd (clean_comp_channel d c) (with_channel c)
        clean_comp_channel-Clears

  clean_mr-Clears : Clears (clean_mr d c) (with_mr c)
  unfolding clean_mr
  clean_mr-Clears = release-Clears d memory_region c.mr (clean_pd d c) (with_pd c) clean_pd-Clears

  clean_cq-Clears : Clears (clean_cq d c) (with_cq c)
  unfolding clean_cq
  clean_cq-Clears =
      release-Clears d completion_queue c.cq (clean_mr d c) (with_mr c) clean_mr-Clears

  clean_srq-Clears : Clears (clean_srq d c) (with_srq c)
  unfolding clean_srq
  clean_srq-Clears =
      release-Clears d shared_receive_queue c.srq (clean_cq d c) (with_cq c) clean_cq-Clears

  destroy_qps-Clears : (qps : List ℕ) → Clears (destroy_qps d qps c) (tag qps (with_array c))
  unfolding destroy_qps
  destroy_qps-Clears [] =
      release-Clears d qp_array c.qp (clean_srq d c) (with_srq c) clean_srq-Clears
  destroy_qps-Clears (qp ∷ qps) =
      release-Clears d queue_pair qp (destroy_qps d qps c) (tag qps (with_array c))
        (destroy_qps-Clears qps)

  clean_qps-Clears : Clears (clean_qps d c) (everything c)
  unfolding clean_qps
  clean_qps-Clears = destroy_qps-Clears c.qps

-- The outcome of `pp_init_ctx`: a context with everything that it names held, or nothing held.
abbrev pub WholeOrNothing : Outcome (Unit {0}) Call (Option SrqContext) → Type 0
WholeOrNothing (done none w) = held w.log ≡ some []
WholeOrNothing (done (some c) w) = held w.log ≡ some (everything c)
WholeOrNothing (stop r w) = ⊥

-- The null pointer that is returned behind a label.
abbrev failed : Outcome (Unit {0}) Call (Unit {0}) → Outcome (Unit {0}) Call (Option SrqContext)
failed r = elim r [ done a w ↦ done none w | stop s w ↦ stop s w ]

module _ (d : Device) where
  -- From `hs`, the rest of `pp_init_ctx` ends well.
  abbrev Inits : P (Option SrqContext) → Held → Type 0
  Inits m hs = (w : World (Unit {0}) Call) → held w.log ≡ some hs → WholeOrNothing (m w)

  fail-Inits : (clean : P (Unit {0})) (hs : Held) → Clears clean hs → Inits (fail d clean) hs
  fail-Inits clean hs clears w h = go (clean w) (clears w h)
    where
      go : (r : Outcome (Unit {0}) Call (Unit {0})) → Cleared r → WholeOrNothing (failed r)
      go (done a w') e = e
      go (stop s w') e = absurd e

  acquire-Inits :
      (k : Kind) (clean : P (Unit {0})) (next : ℕ → P (Option SrqContext)) (hs : Held)
      → Clears clean hs
      → ((p : ℕ) → (p == 0) ≡ false → Inits (next p) ((k, p) ∷ hs))
      → Inits (call d.answer (acquire k) >>= λ p. if p == 0 then fail d clean else next p) hs
  acquire-Inits k clean next hs clears rest w h = go (d.answer w.log (acquire k) == 0) refl
    where
      p : ℕ
      p = d.answer w.log (acquire k)

      w' : World (Unit {0}) Call
      w' = called d (acquire k) w

      go : (b : Bool) → (p == 0) ≡ b → WholeOrNothing ((if p == 0 then fail d clean else next p) w')
      go true e = rw e (fail-Inits clean hs clears w' (rw h (rw e refl)))
      go false e = rw e (rest p e w' (rw h (rw e refl)))

  branch-Inits :
      (b : Bool) (clean : P (Unit {0})) (next : P (Option SrqContext)) (hs : Held)
      → Clears clean hs
      → Inits next hs
      → Inits (if b then next else fail d clean) hs
  branch-Inits true clean next hs clears rest = rest
  branch-Inits false clean next hs clears rest = fail-Inits clean hs clears

  init_ports-Inits : (qps : List ℕ) (c : SrqContext) → Inits (init_ports d qps c) (everything c)
  unfolding init_ports
  init_ports-Inits [] c w h = h
  init_ports-Inits (qp ∷ qps) c w h =
      branch-Inits (d.answer w.log (modify_qp_init qp) == 0) (clean_qps d c) (init_ports d qps c)
        (everything c) (clean_qps-Clears d c) (init_ports-Inits qps c)
        (called d (modify_qp_init qp) w) (rw h refl)

  create_qps-Inits : (n : ℕ) (c : SrqContext) → Inits (create_qps d n c) (everything c)
  unfolding create_qps
  create_qps-Inits zero c w h = init_ports-Inits (in_order c) c w h
  create_qps-Inits (suc n) c w h =
      acquire-Inits queue_pair (clean_qps d c)
        (λ qp. create_qps d n (record c { qps = qp ∷ c.qps })) (everything c) (clean_qps-Clears d c)
        (λ qp _. create_qps-Inits n (record c { qps = qp ∷ c.qps })) w h

  init_array-Inits : (n : ℕ) (c : SrqContext) → c.qps ≡ [] → Inits (init_array d n c) (with_srq c)
  unfolding init_array
  init_array-Inits n c e =
      acquire-Inits qp_array (clean_srq d c) (λ p. create_qps d n (record c { qp = p }))
        (with_srq c) (clean_srq-Clears d c)
        (λ p _ w h.
          create_qps-Inits n (record c { qp = p }) w
            (h ∙ ap (λ qs. some (tag qs ((qp_array, p) ∷ with_srq c))) (sym e)))

  init_srq-Inits : (n : ℕ) (c : SrqContext) → c.qps ≡ [] → Inits (init_srq d n c) (with_cq c)
  unfolding init_srq
  init_srq-Inits n c e =
      acquire-Inits shared_receive_queue (clean_cq d c) (λ p. init_array d n (record c { srq = p }))
        (with_cq c) (clean_cq-Clears d c)
        (λ p _ w h. init_array-Inits n (record c { srq = p }) e w h)

  init_cq-Inits : (n : ℕ) (c : SrqContext) → c.qps ≡ [] → Inits (init_cq d n c) (with_mr c)
  unfolding init_cq
  init_cq-Inits n c e =
      acquire-Inits completion_queue (clean_mr d c) (λ p. init_srq d n (record c { cq = p }))
        (with_mr c) (clean_mr-Clears d c) (λ p _ w h. init_srq-Inits n (record c { cq = p }) e w h)

  init_mr-Inits : (n : ℕ) (c : SrqContext) → c.qps ≡ [] → Inits (init_mr d n c) (with_pd c)
  unfolding init_mr
  init_mr-Inits n c e =
      acquire-Inits memory_region (clean_pd d c) (λ p. init_cq d n (record c { mr = p }))
        (with_pd c) (clean_pd-Clears d c) (λ p _ w h. init_cq-Inits n (record c { mr = p }) e w h)

  init_pd-Inits : (n : ℕ) (c : SrqContext) → c.qps ≡ [] → Inits (init_pd d n c) (with_channel c)
  unfolding init_pd
  init_pd-Inits n c e =
      acquire-Inits protection_domain (clean_comp_channel d c)
        (λ p. init_mr d n (record c { pd = p })) (with_channel c) (clean_comp_channel-Clears d c)
        (λ p _ w h. init_mr-Inits n (record c { pd = p }) e w h)

  init_channel-Inits :
      (use_event : Bool) (n : ℕ) (c : SrqContext)
      → c.qps ≡ []
      → (c.channel == 0) ≡ true
      → Inits (init_channel d use_event n c) (with_device c)
  unfolding init_channel
  init_channel-Inits true n c e none_yet =
      acquire-Inits comp_channel (clean_device d c) (λ p. init_pd d n (record c { channel = p }))
        (with_device c) (clean_device-Clears d c)
        (λ p some_channel w h. init_pd-Inits n (record c { channel = p }) e w (rw some_channel h))
  init_channel-Inits false n c e none_yet = λ w h. init_pd-Inits n c e w (rw none_yet h)

  init_device-Inits :
      (use_event : Bool) (n : ℕ) (c : SrqContext)
      → c.qps ≡ []
      → (c.channel == 0) ≡ true
      → Inits (init_device d use_event n c) (with_buffer c)
  unfolding init_device
  init_device-Inits use_event n c e none_yet =
      acquire-Inits device (clean_buffer d c)
        (λ p. init_channel d use_event n (record c { context = p })) (with_buffer c)
        (clean_buffer-Clears d c)
        (λ p _ w h. init_channel-Inits use_event n (record c { context = p }) e none_yet w h)

  init_buffer-Inits :
      (use_event : Bool) (n : ℕ) (c : SrqContext)
      → c.qps ≡ []
      → (c.channel == 0) ≡ true
      → Inits (init_buffer d use_event n c) (with_ctx c)
  unfolding init_buffer
  init_buffer-Inits use_event n c e none_yet =
      acquire-Inits buffer (clean_ctx d c) (λ p. init_device d use_event n (record c { buf = p }))
        (with_ctx c) (clean_ctx-Clears d c)
        (λ p _ w h. init_device-Inits use_event n (record c { buf = p }) e none_yet w h)

-- `pp_init_ctx` holds everything or nothing, for any number of queue pairs and wherever it fails: if it returns a context,
-- each thing that the context names is held, its queue pairs among them, and nothing else; if it returns null, all
-- that it acquired has been given back, each thing once.
pub pp_init_ctx-WholeOrNothing :
    (d : Device) (use_event : Bool) (num_qp : ℕ)
    → WholeOrNothing (pp_init_ctx d use_event num_qp (record { state = tt; log = [] }))
unfolding pp_init_ctx
pp_init_ctx-WholeOrNothing d use_event num_qp =
    start (d.answer [] (acquire ctx_memory)) (d.answer [] (acquire ctx_memory) == 0) refl
  where
    start :
        (p : ℕ) (b : Bool)
        → (p == 0) ≡ b
        → WholeOrNothing (
            (if p == 0 then pure none else init_buffer d use_event num_qp (blank d p))
              (record { state = tt; log = (acquire ctx_memory, p) ∷ [] }))
    start p true e = rw e (rw e refl)
    start p false e = rw e (
        init_buffer-Inits d use_event num_qp (blank d p) refl refl
          (record { state = tt; log = (acquire ctx_memory, p) ∷ [] }) (rw e refl))
