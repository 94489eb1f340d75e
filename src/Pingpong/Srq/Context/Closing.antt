-- ===== src/Pingpong/Srq/Context/Closing.antt =====
-- What `pp_close_ctx` of srq_pingpong.c leaves held.
use cs594_dcn_f.Prelude.{
  ℕ, ◌≡◌, refl, sym, ap, ◌∙◌, Bool, true, false, some, List, [], ◌∷◌, ◌++◌, append-nil, ◌==◌, eq→==,
  if◌then◌else◌,
}
use cs594_dcn_f.Effects.{World, Log, ◌>>◌, pure, call_}
use cs594_dcn_f.Pingpong.Api.{
  Kind, ctx_memory, buffer, device, comp_channel, protection_domain, memory_region,
  completion_queue, queue_pair, shared_receive_queue, qp_array, Call, release, Device,
}
use cs594_dcn_f.Pingpong.Context.{P}
use cs594_dcn_f.Pingpong.Context.Resources.{
  Held, held, give_back, give_back_head, called, release-held,
}
use cs594_dcn_f.Pingpong.Context.Close.{Closed}
use cs594_dcn_f.Pingpong.Srq.Context.{
  SrqContext, backwards, in_order, close_or_fail, close_channel, close_ctx, close_qps, pp_close_ctx,
}
use cs594_dcn_f.Pingpong.Srq.Context.Balance.{
  tag, with_ctx, with_buffer, with_device, with_channel, with_pd, with_mr, with_cq, with_srq,
  with_array, everything,
}

-- No queue pair of the list has this address.
abbrev pub NotIn : ℕ → List ℕ → Type 0
NotIn p [] = Unit
NotIn p (q ∷ qs) = ((q == p) ≡ false) × NotIn p qs

-- All queue pairs of the list have addresses of their own.
abbrev pub Apart : List ℕ → Type 0
Apart [] = Unit
Apart (q ∷ qs) = NotIn q qs × Apart qs

NotIn-backwards : (p : ℕ) (qs rs : List ℕ) → NotIn p qs → NotIn p rs → NotIn p (backwards qs rs)
NotIn-backwards p [] rs h h' = h'
NotIn-backwards p (q ∷ qs) rs h h' = NotIn-backwards p qs (q ∷ rs) h.1 (h.0, h')

tag-backwards :
    (qs rs : List ℕ) (hs : Held) → tag (backwards qs rs) hs ≡ tag (backwards qs []) (tag rs hs)
tag-backwards [] rs hs = refl
tag-backwards (q ∷ qs) rs hs =
    tag-backwards qs (q ∷ rs) hs ∙ sym (tag-backwards qs (q ∷ []) (tag rs hs))

backwards_twice : (qs rs ts : List ℕ) → backwards (backwards qs rs) ts ≡ backwards rs (qs ++ ts)
backwards_twice [] rs ts = refl
backwards_twice (q ∷ qs) rs ts = backwards_twice qs (q ∷ rs) ts

give_back-tag :
    (p : ℕ) (qs : List ℕ) (hs : Held)
    → NotIn p qs
    → give_back queue_pair p (tag qs ((queue_pair, p) ∷ hs)) ≡ some (tag qs hs)
give_back-tag p [] hs h = give_back_head queue_pair p hs
give_back-tag p (q ∷ qs) hs h = rw (h.0) (rw (give_back-tag p qs hs h.1) refl)

module _ (d : Device)
    (releases : (log : Log Call) (k : Kind) (p : ℕ) → d.answer log (release k p) ≡ 0) where
  abbrev Closes : P ℕ → Held → Type 0
  Closes m hs = (w : World (Unit {0}) Call) → held w.log ≡ some hs → Closed (m w)

  close_or_fail-Closes :
      (k : Kind) (p : ℕ) (rest : P ℕ) (hs : Held)
      → Closes rest hs
      → Closes (close_or_fail d k p rest) ((k, p) ∷ hs)
  close_or_fail-Closes k p rest hs closes w h =
      rw (eq→== (d.answer w.log (release k p)) 0 (releases w.log k p))
        (closes (called d (release k p) w) (release-held d k p hs w h))

  release-Closes :
      (k : Kind) (p : ℕ) (rest : P ℕ) (hs : Held)
      → Closes rest hs
      → Closes (call_ d.answer (release k p) >> rest) ((k, p) ∷ hs)
  release-Closes k p rest hs closes w h =
      closes (called d (release k p) w) (release-held d k p hs w h)

  close_channel-Closes :
      (c : SrqContext) (rest : P ℕ)
      → Closes rest (with_device c)
      → Closes (close_channel d c rest) (with_channel c)
  close_channel-Closes c rest closes = go (c.channel == 0)
    where
      go :
          (b : Bool)
          → Closes
              (if b then rest else close_or_fail d comp_channel c.channel rest)
              (if b then with_device c else ((comp_channel, c.channel) ∷ with_device c))
      go true = closes
      go false = close_or_fail-Closes comp_channel c.channel rest (with_device c) closes

  close_ctx-Closes : (c : SrqContext) → Closes (close_ctx d c) (with_array c)
  unfolding close_ctx
  close_ctx-Closes c = release-Closes qp_array c.qp _ (with_srq c) (
      close_or_fail-Closes shared_receive_queue c.srq _ (with_cq c) (
        close_or_fail-Closes completion_queue c.cq _ (with_mr c) (
          close_or_fail-Closes memory_region c.mr _ (with_pd c) (
            close_or_fail-Closes protection_domain c.pd _ (with_channel c) (
              close_channel-Closes c _ (
                close_or_fail-Closes device c.context _ (with_buffer c) (
                  release-Closes buffer c.buf (call_ d.answer (release ctx_memory c.self) >> pure 0)
                    (with_ctx c)
                    (release-Closes ctx_memory c.self (pure 0) [] (λ w h. (refl, h))))))))))

  close_qps-Closes :
      (qps : List ℕ) (c : SrqContext)
      → Apart qps
      → Closes (close_qps d qps c) (tag (backwards qps []) (with_array c))
  unfolding close_qps
  close_qps-Closes [] c apart w h = close_ctx-Closes c w h
  close_qps-Closes (qp ∷ qps) c apart w h =
      rw (eq→== (d.answer w.log (release queue_pair qp)) 0 (releases w.log queue_pair qp))
        (close_qps-Closes qps c apart.1 (called d (release queue_pair qp) w) next)
    where
      stack : held w.log ≡ some (tag (backwards qps []) ((queue_pair, qp) ∷ with_array c))
      stack = h ∙ ap some (tag-backwards qps (qp ∷ []) (with_array c))

      next :
          held (called d (release queue_pair qp) w).log
          ≡ some (tag (backwards qps []) (with_array c))
      next = rw (stack) (
          give_back-tag qp (backwards qps []) (with_array c) (NotIn-backwards qp qps [] apart.0 tt))

  -- `pp_close_ctx` undoes `pp_init_ctx`: from a context all of whose parts are held, its queue pairs at addresses of their
  -- own, it gives back everything, each thing once, and returns 0, where every release succeeds. The queue pairs go in
  -- the order in which they were created, which is not that of the error labels.
  pub pp_close_ctx-Closes :
      (c : SrqContext) (w : World (Unit {0}) Call)
      → Apart (in_order c)
      → held w.log ≡ some (everything c)
      → Closed (pp_close_ctx d c w)
  unfolding pp_close_ctx
  pp_close_ctx-Closes c w apart h = close_qps-Closes (in_order c) c apart w (
      h
      ∙ ap (λ qs. some (tag qs (with_array c)))
          (sym (backwards_twice c.qps [] [] ∙ append-nil c.qps)))
