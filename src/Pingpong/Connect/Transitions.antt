-- ===== src/Pingpong/Connect/Transitions.antt =====
-- The states through which `pp_connect_ctx` takes a queue pair.
use cs594_dcn_f.Prelude.{
  ℕ, ◌≡◌, ◌⊎◌, ==_refl, Bool, ◌&&◌, Option, none, some, [], ◌∷◌, ◌==◌, if◌then◌else◌, arith,
}
use cs594_dcn_f.Effects.{World, Log, Gives}
use cs594_dcn_f.Pingpong.Api.{
  Call, QpState, qps_init, qps_rtr, qps_rts, modify_qp, modify_qp_init, Device,
}
use cs594_dcn_f.Pingpong.Context.{PingpongContext}
use cs594_dcn_f.Pingpong.Dest.{PingpongDest}
use cs594_dcn_f.Pingpong.Connect.{rtr_attr, rts_attr, pp_connect_ctx}

-- The transitions that a queue pair allows: INIT to RTR, and RTR to RTS. Any other request leaves it in no
-- known state.
abbrev pub move : Option QpState → QpState → Option QpState
move (some qps_init) qps_rtr = some qps_rtr
move (some qps_rtr) qps_rts = some qps_rts
move _ t = none

-- The state of a queue pair after the calls of a log.
abbrev pub reached : ℕ → Log Call → Option QpState
reached qp [] = none
reached qp ((modify_qp_init q, r) ∷ log) =
    if (r == 0) && (q == qp) then some qps_init else reached qp log
reached qp ((modify_qp q attr ooo, r) ∷ log) =
    if (r == 0) && (q == qp) then move (reached qp log) attr.qp_state else reached qp log
reached qp (_ ∷ log) = reached qp log

-- Returned 0 in RTS, or 1 in INIT or in RTR.
abbrev pub Connected : ℕ → ℕ → World (Unit {0}) Call → Type 0
Connected qp r w =
    ((r ≡ 0) × (reached qp w.log ≡ some qps_rts))
    ⊎ ((r ≡ 1) × ((reached qp w.log ≡ some qps_init) ⊎ (reached qp w.log ≡ some qps_rtr)))

-- From a queue pair in INIT, `pp_connect_ctx` returns, and it returns 0 exactly if the queue pair has come
-- to RTS, by way of RTR; if it returns 1, then the queue pair is still in INIT or has come to RTR.
pub pp_connect_ctx-Connected :
    (d : Device) (use_ooo : Bool) (ctx : PingpongContext) (port my_psn mtu sl : ℕ)
    (dest : PingpongDest) (sgid_idx : ℕ) (w : World (Unit {0}) Call)
    → reached ctx.qp w.log ≡ some qps_init
    → Gives
        (pp_connect_ctx d use_ooo ctx port my_psn mtu sl dest sgid_idx w)
        (Connected ctx.qp)
        (λ w'. ⊥)
unfolding pp_connect_ctx rtr_attr rts_attr
pp_connect_ctx-Connected d use_ooo ctx port my_psn mtu sl dest sgid_idx w h =
    ground (arith, ==_refl ctx.qp)
