-- ===== src/Pingpong/Context/Close.antt =====
-- What `pp_close_ctx` of rc_pingpong.c leaves held.
use cs594_dcn_f.Prelude.{
  ℕ, ◌≡◌, refl, Bool, true, false, not, some, [], ◌∷◌, ◌==◌, if◌then◌else◌, eq→==,
}
use cs594_dcn_f.Effects.{World, Outcome, done, stop, Log, ◌>>◌, skip, pure, call_}
use cs594_dcn_f.Pingpong.Api.{
  Kind, ctx_memory, buffer, device, comp_channel, protection_domain, device_memory, memory_region,
  completion_queue, queue_pair, Call, release, Device,
}
use cs594_dcn_f.Pingpong.Context.{
  Options, PingpongContext, P, close_or_fail, close_if, pp_close_ctx,
}
use cs594_dcn_f.Pingpong.Context.Resources.{
  Held, held, called, release-held, with_ctx, with_buffer, with_device, with_channel, with_pd,
  with_dm, with_mr, with_cq, everything,
}

-- Returned 0, with nothing held.
abbrev pub Closed : Outcome (Unit {0}) Call ℕ → Type 0
Closed (done r w) = (r ≡ 0) × (held w.log ≡ some [])
Closed (stop r w) = ⊥

module _ (d : Device)
    (releases : (log : Log Call) (k : Kind) (p : ℕ) → d.answer log (release k p) ≡ 0) where
  abbrev Closes : P ℕ → Held → Type 0
  Closes m hs = (w : World (Unit {0}) Call) → held w.log ≡ some hs → Closed (m w)

  close_or_fail-Closes :
      (o : Options) (k : Kind) (p : ℕ) (rest : P ℕ) (hs : Held)
      → Closes rest hs
      → Closes (close_or_fail d o k p rest) ((k, p) ∷ hs)
  close_or_fail-Closes o k p rest hs closes w h =
      rw (eq→== (d.answer w.log (release k p)) 0 (releases w.log k p))
        (closes (called d (release k p) w) (release-held d k p hs w h))

  close_if-Closes :
      (o : Options) (b b' : Bool) (k : Kind) (p : ℕ) (rest : P ℕ) (hs : Held)
      → b' ≡ not b
      → Closes rest hs
      → Closes (close_if d o b' k p rest) (if b then hs else ((k, p) ∷ hs))
  close_if-Closes o true true k p rest hs e closes = absurd (cc)
  close_if-Closes o true false k p rest hs e closes = closes
  close_if-Closes o false true k p rest hs e closes = close_or_fail-Closes o k p rest hs closes
  close_if-Closes o false false k p rest hs e closes = absurd (cc)

  last-Closes :
      (o : Options) (c : PingpongContext)
      → Closes
          (do
            (if o.use_contiguous_mr then skip else call_ d.answer (release buffer c.buf))
            call_ d.answer (release ctx_memory c.self)
            pure 0)
          (with_buffer o c)
  last-Closes o c = go o.use_contiguous_mr
    where
      go :
          (b : Bool)
          → Closes
              (do
                (if b then skip else call_ d.answer (release buffer c.buf))
                call_ d.answer (release ctx_memory c.self)
                pure 0)
              (if b then with_ctx o c else ((buffer, c.buf) ∷ with_ctx o c))
      go true w h = (refl, release-held d ctx_memory c.self [] w h)
      go false w h = (
        refl,
        release-held d ctx_memory c.self [] (called d (release buffer c.buf) w)
            (release-held d buffer c.buf (with_ctx o c) w h),
      )

  -- `pp_close_ctx` undoes `pp_init_ctx`: from a context all of whose parts are held, and that has
  -- device memory exactly if `use_dm` is set, it gives back everything, each thing once, and
  -- returns 0, where every release succeeds.
  pub pp_close_ctx-Closed :
      (o : Options) (c : PingpongContext) (w : World (Unit {0}) Call)
      → o.use_dm ≡ not (c.dm == 0)
      → held w.log ≡ some (everything o c)
      → Closed (pp_close_ctx d o c w)
  unfolding pp_close_ctx
  pp_close_ctx-Closed o c w dm =
      close_or_fail-Closes o queue_pair c.qp _ (with_cq o c)
        (close_or_fail-Closes o completion_queue c.cq _ (with_mr o c) (
          close_or_fail-Closes o memory_region c.mr _ (with_dm o c) (
            close_if-Closes o (c.dm == 0) o.use_dm device_memory c.dm _ (with_pd o c) dm (
              close_or_fail-Closes o protection_domain c.pd _ (with_channel o c) (
                close_if-Closes o (c.channel == 0) (not (c.channel == 0)) comp_channel c.channel _
                  (with_device o c) refl
                  (close_or_fail-Closes o device c.context _ (with_buffer o c)
                    (last-Closes o c)))))))
        w
