-- ===== src/Pingpong/Srq/Connect.antt =====
-- `pp_connect_ctx` of examples/libibverbs-examples/srq_pingpong.c, over all queue pairs of the context.
use cs594_dcn_f.Prelude.{ℕ, ◌≡◌, ◌⊎◌, false, List, [], ◌∷◌, ◌==◌, if◌then◌else◌}
use cs594_dcn_f.Effects.{World, Log, fault, ◌>>=◌, halt, pure, call}
use cs594_dcn_f.Pingpong.Api.{Call, ConnectAttr, modify_qp, Device}
use cs594_dcn_f.Pingpong.Context.{P}
use cs594_dcn_f.Pingpong.Dest.{PingpongDest}
use cs594_dcn_f.Pingpong.Connect.{rtr_attr, rts_attr}
use cs594_dcn_f.Pingpong.Exchange.Learns.{Event, moved, events}
use cs594_dcn_f.Pingpong.Srq.Context.{SrqContext, in_order}

-- The arguments that are the same for all queue pairs; `gid` is that of the first destination, which all
-- queue pairs get.
pub record Route : Type 0 where
  pub port : ℕ
  pub mtu : ℕ
  pub sl : ℕ
  pub sgid_idx : ℕ
  pub gid : List ℕ

-- The attributes of the first call for a queue pair.
abbrev pub attr_for : Route → PingpongDest → ConnectAttr
attr_for path dest =
    rtr_attr path.port path.mtu path.sl (record dest { gid = path.gid }) path.sgid_idx

module _ (d : Device) (path : Route) where
  -- One turn of the loop: `rest` are the turns behind it.
  unfoldable pub connect_qp : ℕ → PingpongDest → PingpongDest → P ℕ → P ℕ
  connect_qp qp my_dest dest rest = do
    r ← call d.answer (modify_qp qp (attr_for path dest) false)
    (if r == 0
        then (call d.answer (modify_qp qp (rts_attr my_dest.psn (attr_for path dest)) false)
            >>= λ t. if t == 0 then rest else pure 1)
        else pure 1)

  -- The loop, over the three arrays. An array that is too short is read out of bounds.
  unfoldable pub connect_qps : List ℕ → List PingpongDest → List PingpongDest → P ℕ
  connect_qps [] my_dests dests = pure 0
  connect_qps (qp ∷ qps) (my_dest ∷ my_dests) (dest ∷ dests) =
      connect_qp qp my_dest dest (connect_qps qps my_dests dests)
  connect_qps (qp ∷ qps) [] dests = halt fault
  connect_qps (qp ∷ qps) (my_dest ∷ my_dests) [] = halt fault

-- The array `dest` has at least one element, whose GID is taken.
unfoldable pub pp_connect_ctx :
    Device → SrqContext → ℕ → ℕ → ℕ → List PingpongDest → List PingpongDest → ℕ → P ℕ
pp_connect_ctx d ctx port mtu sl my_dests [] sgid_idx =
    connect_qps d (record { port = port; mtu = mtu; sl = sl; sgid_idx = sgid_idx; gid = [] })
      (in_order ctx) my_dests []
pp_connect_ctx d ctx port mtu sl my_dests (dest ∷ dests) sgid_idx =
    connect_qps d (record { port = port; mtu = mtu; sl = sl; sgid_idx = sgid_idx; gid = dest.gid })
      (in_order ctx) my_dests (dest ∷ dests)

module _ (d : Device) (path : Route) where
  -- What is done to the queue pairs, behind `es`; the newest first.
  abbrev pub all_moved : List ℕ → List PingpongDest → List PingpongDest → List Event → List Event
  all_moved [] my_dests dests es = es
  all_moved (qp ∷ qps) [] dests es = es
  all_moved (qp ∷ qps) (my_dest ∷ my_dests) [] es = es
  all_moved (qp ∷ qps) (my_dest ∷ my_dests) (dest ∷ dests) es =
      all_moved qps my_dests dests
        (moved qp (rts_attr my_dest.psn (attr_for path dest)) ∷ moved qp (attr_for path dest) ∷ es)

  -- The newest call has failed.
  abbrev pub Failed : Log Call → Type 0
  Failed [] = ⊥
  Failed ((c, r) ∷ log) = (r == 0) ≡ false

  -- The answer tells whether all has been done, or the newest call has failed.
  abbrev pub Told : List Event → ℕ → World (Unit {0}) Call → Type 0
  Told es r w' = (r ≡ 0 × (events w'.log ≡ es)) ⊎ ((r ≡ 1) × Failed w'.log)
