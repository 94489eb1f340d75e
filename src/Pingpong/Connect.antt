-- ===== src/Pingpong/Connect.antt =====
-- `pp_connect_ctx` of examples/libibverbs-examples/rc_pingpong.c.
pub mod Transitions
use cs594_dcn_f.Prelude.{ℕ, Bool, true, false, not, ◌&&◌, List, [], ◌∷◌, ◌==◌, if◌then◌else◌}
use cs594_dcn_f.Effects.{M, ◌>>=◌, pure, call}
use cs594_dcn_f.Pingpong.Api.{Call, ConnectAttr, qps_rtr, qps_rts, modify_qp, Device}
use cs594_dcn_f.Pingpong.Dest.{PingpongDest}
use cs594_dcn_f.Pingpong.Context.{P, PingpongContext}

-- `gid.global.interface_id`, the last two words, is not 0.
abbrev pub has_interface_id : List ℕ → Bool
has_interface_id (a ∷ b ∷ c ∷ d ∷ []) = not ((c == 0) && (d == 0))
has_interface_id _ = false

-- The attributes of the first call; a field that is not set is 0.
unfoldable pub rtr_attr : ℕ → ℕ → ℕ → PingpongDest → ℕ → ConnectAttr
rtr_attr port mtu sl dest sgid_idx =
    let is_global = has_interface_id dest.gid in
    record {
      qp_state = qps_rtr;
      path_mtu = mtu;
      dest_qp_num = dest.qpn;
      rq_psn = dest.psn;
      max_dest_rd_atomic = 1;
      min_rnr_timer = 12;
      is_global = is_global;
      dlid = dest.lid;
      sl = sl;
      port_num = port;
      hop_limit = if is_global then 1 else 0;
      dgid = if is_global then dest.gid else [];
      sgid_index = if is_global then sgid_idx else 0;
      timeout = 0;
      retry_cnt = 0;
      rnr_retry = 0;
      sq_psn = 0;
      max_rd_atomic = 0;
    }

-- The same structure at the second call.
unfoldable pub rts_attr : ℕ → ConnectAttr → ConnectAttr
rts_attr my_psn attr = record attr {
  qp_state = qps_rts;
  timeout = 14;
  retry_cnt = 7;
  rnr_retry = 7;
  sq_psn = my_psn;
  max_rd_atomic = 1;
}

-- The first call has a flag more if `use_ooo` is set. The answer is what is returned.
unfoldable pub pp_connect_ctx :
    Device → Bool → PingpongContext → ℕ → ℕ → ℕ → ℕ → PingpongDest → ℕ → P ℕ
pp_connect_ctx d use_ooo ctx port my_psn mtu sl dest sgid_idx = do
  let attr = rtr_attr port mtu sl dest sgid_idx
  r ← call d.answer (modify_qp ctx.qp attr use_ooo)
  (if r == 0
      then (call d.answer (modify_qp ctx.qp (rts_attr my_psn attr) false) >>= λ t.
          if t == 0 then pure 0 else pure 1)
      else pure 1)
