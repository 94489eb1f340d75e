-- ===== src/Pingpong/Context/Fits.antt =====
-- The device memory of a context that `pp_init_ctx` of rc_pingpong.c returns.
use cs594_dcn_f.Prelude.{
  ℕ, ◌≡◌, refl, sym, ap, ◌∙◌, Bool, true, false, not, ◌&&◌, Option, none, some, ◌==◌, if◌then◌else◌,
  arith,
}
use cs594_dcn_f.Effects.{
  fault, halt, World, Outcome, done, stop, ◌>>◌, ◌>>=◌, skip, pure, call, call_,
}
use cs594_dcn_f.Pingpong.Api.{
  Kind, ctx_memory, buffer, device, comp_channel, protection_domain, device_memory, memory_region,
  completion_queue, queue_pair, Call, acquire, memcpy_dm, query_device, query_device_ex,
  modify_qp_init, Device,
}
use cs594_dcn_f.Pingpong.Context.{
  Options, PingpongContext, P, clean_ctx, clean_buffer, clean_device, clean_comp_channel, clean_pd,
  clean_dm, clean_mr, clean_cq, clean_qp, fail, init_port, init_qp, init_cq, fill_buffer, register,
  register_odp, alloc_dm, register_dm, init_mr, init_pd, init_channel, init_device, init_buffer,
  pp_init_ctx,
}
use cs594_dcn_f.Pingpong.Context.Resources.{called}

-- There is device memory exactly if it is asked for.
abbrev pub Fits : Options → PingpongContext → Type 0
Fits o c = o.use_dm ≡ not (c.dm == 0)

abbrev pub AllFit : Options → Outcome (Unit {0}) Call (Option PingpongContext) → Type 0
AllFit o (done none w) = Unit
AllFit o (done (some c) w) = Fits o c
AllFit o (stop r w) = Unit

abbrev failed :
    Outcome (Unit {0}) Call (Unit {0}) → Outcome (Unit {0}) Call (Option PingpongContext)
failed r = elim r [ done a w ↦ done none w | stop s w ↦ stop s w ]

plain-off : (c o d : Bool) → (not c && not o && not d) ≡ true → d ≡ false
plain-off c o d e = ground arith

excluded-off : (d b : Bool) → (d ≡ true → b ≡ false) → b ≡ true → d ≡ false
excluded-off true b h t = (let off = h refl in absurd (cc))
excluded-off false b h t = refl

rest-on : (c o d : Bool) → (not c && not o && not d) ≡ false → o ≡ false → c ≡ false → d ≡ true
rest-on c o d e t u = ground arith

module _ (d : Device) (o : Options) where
  abbrev pub Makes : P (Option PingpongContext) → Type 0
  Makes m = (w : World (Unit {0}) Call) → AllFit o (m w)

  fail-Makes : (clean : P (Unit {0})) → Makes (fail d o clean)
  fail-Makes clean w = go (clean w)
    where
      go : (r : Outcome (Unit {0}) Call (Unit {0})) → AllFit o (failed r)
      go (done a w') = tt
      go (stop s w') = tt

  branch-Makes :
      (b : Bool) (m n : P (Option PingpongContext))
      → (b ≡ true → Makes m)
      → (b ≡ false → Makes n)
      → Makes (if b then m else n)
  branch-Makes true m n yes_ no_ = yes_ refl
  branch-Makes false m n yes_ no_ = no_ refl

  acquire-Makes :
      (k : Kind) (clean : P (Unit {0})) (next : ℕ → P (Option PingpongContext))
      → ((p : ℕ) → (p == 0) ≡ false → Makes (next p))
      → Makes (call d.answer (acquire k) >>= λ p. if p == 0 then fail d o clean else next p)
  acquire-Makes k clean next rest w =
      let p = d.answer w.log (acquire k) in
      branch-Makes (p == 0) (fail d o clean) (next p) (λ _. fail-Makes clean) (rest p)
        (called d (acquire k) w)

  init_port-Makes : (c : PingpongContext) → Fits o c → Makes (init_port d o c)
  unfolding init_port
  init_port-Makes c fits w =
      branch-Makes (d.answer w.log (modify_qp_init c.qp) == 0) (pure (some c))
        (fail d o (clean_qp d o c)) (λ _ w'. fits) (λ _. fail-Makes (clean_qp d o c))
        (called d (modify_qp_init c.qp) w)

  init_qp-Makes : (c : PingpongContext) → Fits o c → Makes (init_qp d o c)
  unfolding init_qp
  init_qp-Makes c fits =
      acquire-Makes queue_pair (clean_cq d o c) (λ p. init_port d o (record c { qp = p }))
        (λ p _. init_port-Makes (record c { qp = p }) fits)

  init_cq-Makes : (c : PingpongContext) → Fits o c → Makes (init_cq d o c)
  unfolding init_cq
  init_cq-Makes c fits =
      acquire-Makes completion_queue (clean_mr d o c) (λ p. init_qp d o (record c { cq = p }))
        (λ p _. init_qp-Makes (record c { cq = p }) fits)

  fill_buffer-Makes : (c : PingpongContext) → Fits o c → Makes (fill_buffer d o c)
  unfolding fill_buffer
  fill_buffer-Makes c0 fits =
      let c : PingpongContext = record c0 {
        buf = if o.use_contiguous_mr then d.mr_addr c0.mr else c0.buf;
      } in
      branch-Makes (o.use_contiguous_mr && (c.buf == 0)) (halt fault)
        (if o.use_dm
          then (call d.answer memcpy_dm >>= λ r.
              if r == 0 then init_cq d o c else fail d o (clean_dm d o c))
          else init_cq d o c)
        (λ _ w. tt)
        (λ _.
          branch-Makes o.use_dm
            (call d.answer memcpy_dm >>= λ r.
              if r == 0 then init_cq d o c else fail d o (clean_dm d o c))
            (init_cq d o c)
            (λ _ w.
              branch-Makes (d.answer w.log memcpy_dm == 0) (init_cq d o c)
                (fail d o (clean_dm d o c)) (λ _. init_cq-Makes c fits)
                (λ _. fail-Makes (clean_dm d o c)) (called d memcpy_dm w))
            (λ _. init_cq-Makes c fits))

  register-Makes : (c : PingpongContext) → Fits o c → Makes (register d o c)
  unfolding register
  register-Makes c fits =
      acquire-Makes memory_region (clean_dm d o c) (λ p. fill_buffer d o (record c { mr = p }))
        (λ p _. fill_buffer-Makes (record c { mr = p }) fits)

  register_odp-Makes : (c : PingpongContext) → Fits o c → Makes (register_odp d o c)
  unfolding register_odp
  register_odp-Makes c fits w =
      let q = if o.use_upstream then query_device_ex else query_device in
      let w' = called d q w in
      branch-Makes
        ((d.answer w.log q == 0) && (if o.use_upstream then d.upstream_odp else d.exp_odp) w'.log)
        (register d o c) (fail d o (clean_pd d o c)) (λ _. register-Makes c fits)
        (λ _. fail-Makes (clean_pd d o c)) w'

  alloc_dm-Makes : (c : PingpongContext) → o.use_dm ≡ true → Makes (alloc_dm d o c)
  unfolding alloc_dm
  alloc_dm-Makes c on =
      acquire-Makes device_memory (clean_pd d o c) (λ p. register d o (record c { dm = p }))
        (λ p some_ w. register-Makes (record c { dm = p }) (on ∙ sym (ap not some_)) w)

  register_dm-Makes : (c : PingpongContext) → o.use_dm ≡ true → Makes (register_dm d o c)
  unfolding register_dm
  register_dm-Makes c on w =
      let w' = called d query_device w in
      branch-Makes ((d.answer w.log query_device == 0) && d.has_dm w'.log) (alloc_dm d o c)
        (fail d o (clean_pd d o c)) (λ _. alloc_dm-Makes c on) (λ _. fail-Makes (clean_pd d o c)) w'

  module _ (no_odp : o.use_dm ≡ true → o.use_odp ≡ false)
      (own : o.use_dm ≡ true → o.use_contiguous_mr ≡ false) where
    -- No device memory is asked for wherever another kind of registration is chosen.
    init_mr-Makes : (c : PingpongContext) → (c.dm == 0) ≡ true → Makes (init_mr d o c)
    unfolding init_mr
    init_mr-Makes c none_yet =
        branch-Makes (not o.use_contiguous_mr && not o.use_odp && not o.use_dm) _ _
          (λ e. register-Makes c (off (plain-off o.use_contiguous_mr o.use_odp o.use_dm e)))
          (λ e.
            branch-Makes o.use_odp (register_odp d o c)
              (if o.use_contiguous_mr then register d o c else register_dm d o c)
              (λ t. register_odp-Makes c (off (excluded-off o.use_dm o.use_odp no_odp t)))
              (λ t.
                branch-Makes o.use_contiguous_mr (register d o c) (register_dm d o c)
                  (λ u. register-Makes c (off (excluded-off o.use_dm o.use_contiguous_mr own u)))
                  (λ u.
                    register_dm-Makes c (rest-on o.use_contiguous_mr o.use_odp o.use_dm e t u))))
      where
        off : o.use_dm ≡ false → Fits o c
        off e = e ∙ sym (ap not none_yet)

    init_pd-Makes : (c : PingpongContext) → (c.dm == 0) ≡ true → Makes (init_pd d o c)
    unfolding init_pd
    init_pd-Makes c none_yet =
        acquire-Makes protection_domain (clean_comp_channel d o c)
          (λ p. init_mr d o (record c { pd = p }))
          (λ p _ w. init_mr-Makes (record c { pd = p }) none_yet w)

    init_channel-Makes : (c : PingpongContext) → (c.dm == 0) ≡ true → Makes (init_channel d o c)
    unfolding init_channel
    init_channel-Makes c none_yet =
        branch-Makes o.use_event _ (init_pd d o c)
          (λ _.
            acquire-Makes comp_channel (clean_device d o c)
              (λ p. init_pd d o (record c { channel = p }))
              (λ p _ w. init_pd-Makes (record c { channel = p }) none_yet w))
          (λ _. init_pd-Makes c none_yet)

    init_device-Makes : (c : PingpongContext) → (c.dm == 0) ≡ true → Makes (init_device d o c)
    unfolding init_device
    init_device-Makes c none_yet =
        acquire-Makes device (clean_buffer d o c)
          (λ p.
            (if o.inlr_recv == 0 then skip else call_ d.answer query_device)
            >> init_channel d o (record c { context = p }))
          (λ p _. ask (o.inlr_recv == 0) (record c { context = p }) none_yet)
      where
        ask :
            (b : Bool) (c : PingpongContext)
            → (c.dm == 0) ≡ true
            → Makes ((if b then skip else call_ d.answer query_device) >> init_channel d o c)
        ask true c e w = init_channel-Makes c e w
        ask false c e w = init_channel-Makes c e (called d query_device w)

    init_buffer-Makes : (c : PingpongContext) → (c.dm == 0) ≡ true → Makes (init_buffer d o c)
    unfolding init_buffer
    init_buffer-Makes c none_yet =
        branch-Makes o.use_contiguous_mr (init_device d o c) _ (λ _. init_device-Makes c none_yet)
          (λ _.
            acquire-Makes buffer (clean_ctx d o c) (λ p. init_device d o (record c { buf = p }))
              (λ p _ w. init_device-Makes (record c { buf = p }) none_yet w))

    pub init_ctx-Makes : Makes (pp_init_ctx d o)
    unfolding pp_init_ctx
    init_ctx-Makes w =
        let p = d.answer w.log (acquire ctx_memory) in
        let c : PingpongContext = record {
          self = p;
          context = 0;
          channel = 0;
          pd = 0;
          mr = 0;
          dm = 0;
          cq = 0;
          qp = 0;
          buf = 0;
        } in
        branch-Makes (p == 0) (pure none) (init_buffer d o c) (λ _ w'. tt)
          (λ _. init_buffer-Makes c refl) (called d (acquire ctx_memory) w)
