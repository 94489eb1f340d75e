-- ===== src/Pingpong/Context/Resources.antt =====
-- What `pp_init_ctx` and `pp_close_ctx` of rc_pingpong.c hold, read off the log of their calls.
use cs594_dcn_f.Prelude.{
  ℕ, ◌≡◌, Bool, true, false, ◌&&◌, Option, none, some, List, [], ◌∷◌, ◌==◌, if◌then◌else◌, ==_refl,
}
use cs594_dcn_f.Effects.{World, Outcome, done, stop, Log, ◌>>◌, skip, call_}
use cs594_dcn_f.Pingpong.Api.{
  Kind, ctx_memory, buffer, device, comp_channel, protection_domain, device_memory, memory_region,
  completion_queue, queue_pair, service, address_list, socket, connection, dest_memory,
  shared_receive_queue, qp_array, pending_array, Call, acquire, release, Device,
}
use cs594_dcn_f.Pingpong.Context.{
  Options, PingpongContext, P, clean_ctx, clean_buffer, clean_device, clean_comp_channel, clean_pd,
  clean_dm, clean_mr, clean_cq, clean_qp,
}

abbrev pub rank : Kind → ℕ
rank ctx_memory = 0
rank buffer = 1
rank device = 2
rank comp_channel = 3
rank protection_domain = 4
rank device_memory = 5
rank memory_region = 6
rank completion_queue = 7
rank queue_pair = 8
rank service = 9
rank address_list = 10
rank socket = 11
rank connection = 12
rank dest_memory = 13
rank shared_receive_queue = 14
rank qp_array = 15
rank pending_array = 16

abbrev pub Held : Type 0
Held = List (Kind × ℕ)

-- A release gives back the first thing of its kind and address; `none` if there is no such thing.
abbrev pub give_back : Kind → ℕ → Held → Option Held
give_back k p [] = none
give_back k p ((j, q) ∷ hs) =
    if (rank j == rank k) && (q == p)
    then some hs
    else elim (give_back k p hs) [ none ↦ none | some rest ↦ some ((j, q) ∷ rest) ]

abbrev pub after : Call → ℕ → Held → Option Held
after (acquire k) p hs = if p == 0 then some hs else some ((k, p) ∷ hs)
after (release k p) r hs = give_back k p hs
after _ r hs = some hs

-- What is held after the calls of a log, the newest first; `none` once something has been given back
-- that was not held.
abbrev pub held : Log Call → Option Held
held [] = some []
held ((c, r) ∷ log) = elim (held log) [ none ↦ none | some hs ↦ after c r hs ]

module _ (o : Options) (c : PingpongContext) where
  -- What a context holds at each stage.
  abbrev pub with_ctx : Held
  with_ctx = (ctx_memory, c.self) ∷ []

  abbrev pub with_buffer : Held
  with_buffer = if o.use_contiguous_mr then with_ctx else ((buffer, c.buf) ∷ with_ctx)

  abbrev pub with_device : Held
  with_device = (device, c.context) ∷ with_buffer

  abbrev pub with_channel : Held
  with_channel = if c.channel == 0 then with_device else ((comp_channel, c.channel) ∷ with_device)

  abbrev pub with_pd : Held
  with_pd = (protection_domain, c.pd) ∷ with_channel

  abbrev pub with_dm : Held
  with_dm = if c.dm == 0 then with_pd else ((device_memory, c.dm) ∷ with_pd)

  abbrev pub with_mr : Held
  with_mr = (memory_region, c.mr) ∷ with_dm

  abbrev pub with_cq : Held
  with_cq = (completion_queue, c.cq) ∷ with_mr

  abbrev pub everything : Held
  everything = (queue_pair, c.qp) ∷ with_cq

-- Returned, with nothing held.
abbrev pub Cleared : Outcome (Unit {0}) Call (Unit {0}) → Type 0
Cleared (done a w) = held w.log ≡ some []
Cleared (stop r w) = ⊥

-- The label gives back all of `hs`, and returns.
abbrev pub Clears : P (Unit {0}) → Held → Type 0
Clears clean hs = (w : World (Unit {0}) Call) → held w.log ≡ some hs → Cleared (clean w)

pub give_back_head : (k : Kind) (p : ℕ) (hs : Held) → give_back k p ((k, p) ∷ hs) ≡ some hs
give_back_head k p hs = rw (==_refl (rank k), ==_refl p)

module _ (d : Device) where
  -- The world after one more call.
  abbrev pub called : Call → World (Unit {0}) Call → World (Unit {0}) Call
  called c w = record { state = w.state; log = (c, d.answer w.log c) ∷ w.log }

  pub release-held :
      (k : Kind) (p : ℕ) (hs : Held) (w : World (Unit {0}) Call)
      → held w.log ≡ some ((k, p) ∷ hs)
      → held (called (release k p) w).log ≡ some hs
  release-held k p hs w h = rw h (give_back_head k p hs)

  pub release-Clears :
      (k : Kind) (p : ℕ) (clean : P (Unit {0})) (hs : Held)
      → Clears clean hs
      → Clears (call_ d.answer (release k p) >> clean) ((k, p) ∷ hs)
  release-Clears k p clean hs rest w h = rest (called (release k p) w) (release-held k p hs w h)

  pub unless-Clears :
      (b : Bool) (k : Kind) (p : ℕ) (clean : P (Unit {0})) (hs : Held)
      → Clears clean hs
      → Clears
          ((if b then skip else call_ d.answer (release k p)) >> clean)
          (if b then hs else ((k, p) ∷ hs))
  unless-Clears true k p clean hs rest = rest
  unless-Clears false k p clean hs rest = release-Clears k p clean hs rest

module _ (d : Device) (o : Options) (c : PingpongContext) where
  pub clean_ctx-Clears : Clears (clean_ctx d o c) (with_ctx o c)
  unfolding clean_ctx
  clean_ctx-Clears w h = release-held d ctx_memory c.self [] w h

  pub clean_buffer-Clears : Clears (clean_buffer d o c) (with_buffer o c)
  unfolding clean_buffer
  clean_buffer-Clears =
      unless-Clears d o.use_contiguous_mr buffer c.buf (clean_ctx d o c) (with_ctx o c)
        clean_ctx-Clears

  pub clean_device-Clears : Clears (clean_device d o c) (with_device o c)
  unfolding clean_device
  clean_device-Clears =
      release-Clears d device c.context (clean_buffer d o c) (with_buffer o c) clean_buffer-Clears

  pub clean_comp_channel-Clears : Clears (clean_comp_channel d o c) (with_channel o c)
  unfolding clean_comp_channel
  clean_comp_channel-Clears =
      unless-Clears d (c.channel == 0) comp_channel c.channel (clean_device d o c) (with_device o c)
        clean_device-Clears

  pub clean_pd-Clears : Clears (clean_pd d o c) (with_pd o c)
  unfolding clean_pd
  clean_pd-Clears =
      release-Clears d protection_domain c.pd (clean_comp_channel d o c) (with_channel o c)
        clean_comp_channel-Clears

  pub clean_dm-Clears : Clears (clean_dm d o c) (with_dm o c)
  unfolding clean_dm
  clean_dm-Clears =
      unless-Clears d (c.dm == 0) device_memory c.dm (clean_pd d o c) (with_pd o c) clean_pd-Clears

  pub clean_mr-Clears : Clears (clean_mr d o c) (with_mr o c)
  unfolding clean_mr
  clean_mr-Clears =
      release-Clears d memory_region c.mr (clean_dm d o c) (with_dm o c) clean_dm-Clears

  pub clean_cq-Clears : Clears (clean_cq d o c) (with_cq o c)
  unfolding clean_cq
  clean_cq-Clears =
      release-Clears d completion_queue c.cq (clean_mr d o c) (with_mr o c) clean_mr-Clears

  pub clean_qp-Clears : Clears (clean_qp d o c) (everything o c)
  unfolding clean_qp
  clean_qp-Clears = release-Clears d queue_pair c.qp (clean_cq d o c) (with_cq o c) clean_cq-Clears
