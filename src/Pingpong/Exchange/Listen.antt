-- ===== src/Pingpong/Exchange/Listen.antt =====
-- The resources of `pp_server_exch_dest` of rc_pingpong.c.
use cs594_dcn_f.Prelude.{
  ℕ, zero, suc, ◌≡◌, refl, Bool, true, false, none, some, ◌∷◌, ◌==◌, if◌then◌else◌,
}
use cs594_dcn_f.Effects.{World, Log, Gives, ◌>>◌, ◌>>=◌, pure, call, call_}
use cs594_dcn_f.Pingpong.Api.{
  service, address_list, socket, connection, dest_memory, ConnectAttr, modify_qp, Call,
  set_reuse_addr, bind_socket, listen_socket, write_socket, receive,
}
use cs594_dcn_f.Pingpong.Context.{PingpongContext}
use cs594_dcn_f.Pingpong.Context.Resources.{Held, held, called}
use cs594_dcn_f.Pingpong.Connect.{rtr_attr, rts_attr, pp_connect_ctx}
use cs594_dcn_f.Pingpong.Dest.{PingpongDest, dest_message, scan_dest, message_size}
use cs594_dcn_f.Pingpong.Exchange.{
  Host, Link, not_positive, server_out, server_drop, server_socket, server_wait, server_reply,
  server_connect, server_dest, server_receive, server_accept, server_bound, server_resolve,
  pp_server_exch_dest,
}
use cs594_dcn_f.Pingpong.Exchange.Balance.{
  with_socket, free_names-Does, Opened, keep, keep-Opened, open-Opened,
}
use cs594_dcn_f.Pingpong.Exchange.Steps.{
  Ended, Does, acquire-Does, accept-Does, release-Does, release_second-Does, call-Does, call_-Does,
  branch-Does, deref-Does, Gives-Does,
}

module _ (h : Host) where
  pub server_socket-Opened : (n : ℕ) (hs : Held) → Opened h hs (server_socket h n)
  unfolding server_socket
  server_socket-Opened zero hs w e = e
  server_socket-Opened (suc n) hs w e =
      open-Opened h (server_socket h n)
        (λ s.
          call_ h.device.answer (set_reuse_addr s)
          >> (call h.device.answer (bind_socket s) >>= keep h s (server_socket h n)))
        hs (server_socket-Opened n hs)
        (λ s t w e.
          let w' = called h.device (set_reuse_addr s) w in
          keep-Opened h s (server_socket h n) hs (server_socket-Opened n hs) t
            (h.device.answer w'.log (bind_socket s)) (called h.device (bind_socket s) w')
            (rw e refl))
        w e

  -- Connecting the queue pair acquires and releases nothing.
  connect_ctx-Gives :
      (use_ooo : Bool) (ctx : PingpongContext) (port my_psn mtu sl sgid_idx : ℕ)
      (dest : PingpongDest) (hs : Held) (w : World (Unit {0}) Call)
      → held w.log ≡ some hs
      → Gives
          (pp_connect_ctx h.device use_ooo ctx port my_psn mtu sl dest sgid_idx w)
          (λ r w'. held w'.log ≡ some hs)
          (λ w'. ⊥)
  unfolding pp_connect_ctx
  connect_ctx-Gives use_ooo ctx port my_psn mtu sl sgid_idx dest hs w e = first (r == 0)
    where
      attr : ConnectAttr
      attr = rtr_attr port mtu sl dest sgid_idx

      r : ℕ
      r = h.device.answer w.log (modify_qp ctx.qp attr use_ooo)

      w₁ : World (Unit {0}) Call
      w₁ = called h.device (modify_qp ctx.qp attr use_ooo) w

      w₂ : World (Unit {0}) Call
      w₂ = called h.device (modify_qp ctx.qp (rts_attr my_psn attr) false) w₁

      second :
          (b : Bool)
          → Gives {A = ℕ}
              ((if b then pure 0 else pure 1) w₂)
              (λ r w'. held w'.log ≡ some hs)
              (λ w'. ⊥)
      second true = rw e refl
      second false = rw e refl

      first :
          (b : Bool)
          → Gives {A = ℕ}
              ((if b
                  then (call h.device.answer (modify_qp ctx.qp (rts_attr my_psn attr) false)
                      >>= λ t. if t == 0 then pure 0 else pure 1)
                  else pure 1)
                w₁)
              (λ r w'. held w'.log ≡ some hs)
              (λ w'. ⊥)
      first true =
          second (h.device.answer w₁.log (modify_qp ctx.qp (rts_attr my_psn attr) false) == 0)
      first false = rw e refl

module _ (h : Host) (hs : Held) (ctx : PingpongContext) (link : Link) (my_dest : PingpongDest) where
  server_out-Does :
      (c p : ℕ) (dest : PingpongDest) (log : Log Call)
      → scan_dest h.ntohl (h.received log) ≡ some dest
      → Does h.device
          (Ended h (scan_dest h.ntohl) hs)
          (server_out h c (some (p, dest)))
          ((dest_memory, p) ∷ (connection, c) ∷ hs)
  unfolding server_out
  server_out-Does c p dest log t =
      release_second-Does h.device (Ended h (scan_dest h.ntohl) hs) connection dest_memory c p
        (pure (some (p, dest))) hs refl (λ w e. (e, (log, t)))

  server_out_null-Does :
      (c : ℕ)
      → Does h.device (Ended h (scan_dest h.ntohl) hs) (server_out h c none) ((connection, c) ∷ hs)
  unfolding server_out
  server_out_null-Does c =
      release-Does h.device (Ended h (scan_dest h.ntohl) hs) connection c (pure none) hs (λ w e. e)

  server_drop-Does :
      (c p : ℕ)
      → Does h.device
          (Ended h (scan_dest h.ntohl) hs)
          (server_drop h c p)
          ((dest_memory, p) ∷ (connection, c) ∷ hs)
  unfolding server_drop
  server_drop-Does c p =
      release-Does h.device (Ended h (scan_dest h.ntohl) hs) dest_memory p (server_out h c none)
        ((connection, c) ∷ hs) (server_out_null-Does c)

  module _ (c p : ℕ) (dest : PingpongDest) (log : Log Call)
      (t : scan_dest h.ntohl (h.received log) ≡ some dest) where
    abbrev both : Held
    both = (dest_memory, p) ∷ (connection, c) ∷ hs

    server_wait-Does : Does h.device (Ended h (scan_dest h.ntohl) hs) (server_wait h c p dest) both
    unfolding server_wait
    server_wait-Does =
        call-Does h.device (Ended h (scan_dest h.ntohl) hs) (receive c message_size) _ both
          (λ r. refl)
          (λ r.
            branch-Does h.device (Ended h (scan_dest h.ntohl) hs) (not_positive r) _ _ both
              (server_drop-Does c p) (server_out-Does c p dest log t))

    server_reply-Does :
        Does h.device (Ended h (scan_dest h.ntohl) hs) (server_reply h my_dest c p dest) both
    unfolding server_reply
    server_reply-Does =
        call-Does h.device (Ended h (scan_dest h.ntohl) hs)
          (write_socket c (dest_message h.htonl my_dest)) _ both (λ r. refl)
          (λ r.
            branch-Does h.device (Ended h (scan_dest h.ntohl) hs) (r == message_size) _ _ both
              server_wait-Does (server_drop-Does c p))

    server_connect-Does :
        Does h.device
          (Ended h (scan_dest h.ntohl) hs)
          (server_connect h ctx link my_dest c p dest)
          both
    unfolding server_connect
    server_connect-Does =
        Gives-Does h.device (Ended h (scan_dest h.ntohl) hs)
          (pp_connect_ctx h.device link.use_ooo ctx link.port my_dest.psn link.mtu link.sl dest
            link.sgid_idx)
          _ both (λ r. both)
          (connect_ctx-Gives h link.use_ooo ctx link.port my_dest.psn link.mtu link.sl link.sgid_idx
            dest both)
          (λ r.
            branch-Does h.device (Ended h (scan_dest h.ntohl) hs) (r == 0) _ _ both
              server_reply-Does (server_drop-Does c p))

  server_dest-Does :
      (c : ℕ) (log : Log Call)
      → Does h.device
          (Ended h (scan_dest h.ntohl) hs)
          (server_dest h ctx link my_dest c (h.received log))
          ((connection, c) ∷ hs)
  unfolding server_dest
  server_dest-Does c log =
      acquire-Does h.device (Ended h (scan_dest h.ntohl) hs) dest_memory (server_out h c none) _
        ((connection, c) ∷ hs) (server_out_null-Does c)
        (λ p.
          deref-Does h (scan_dest h.ntohl) hs log (server_connect h ctx link my_dest c p)
            ((dest_memory, p) ∷ (connection, c) ∷ hs)
            (λ dest t. server_connect-Does c p dest log t))

  server_receive-Does :
      (c : ℕ)
      → Does h.device
          (Ended h (scan_dest h.ntohl) hs)
          (server_receive h ctx link my_dest c)
          ((connection, c) ∷ hs)
  unfolding server_receive
  server_receive-Does c =
      call-Does h.device (Ended h (scan_dest h.ntohl) hs) (receive c message_size) _
        ((connection, c) ∷ hs) (λ r. refl)
        (λ n w e.
          branch-Does h.device (Ended h (scan_dest h.ntohl) hs) (n == message_size) _ _
            ((connection, c) ∷ hs) (server_dest-Does c w.log) (server_out_null-Does c) w e)

  server_accept-Does :
      (s : ℕ)
      → Does h.device
          (Ended h (scan_dest h.ntohl) hs)
          (server_accept h ctx link my_dest s)
          ((socket, s) ∷ hs)
  unfolding server_accept
  server_accept-Does s =
      call_-Does h.device (Ended h (scan_dest h.ntohl) hs) (listen_socket s) _ ((socket, s) ∷ hs)
        (λ r. refl)
        (accept-Does h.device (Ended h (scan_dest h.ntohl) hs) s (pure none)
          (server_receive h ctx link my_dest) hs (λ w e. e) server_receive-Does)

  server_bound-Does :
      (name res s : ℕ)
      → Does h.device
          (Ended h (scan_dest h.ntohl) hs)
          (server_bound h ctx link my_dest name res s)
          (with_socket s ((address_list, res) ∷ (service, name) ∷ hs))
  unfolding server_bound
  server_bound-Does name res s =
      free_names-Does h.device (Ended h (scan_dest h.ntohl) hs) (pure none) hs (λ w e. e)
        (server_accept h ctx link my_dest s) name res s (server_accept-Does s)

  server_resolve-Does :
      (name : ℕ)
      → Does h.device
          (Ended h (scan_dest h.ntohl) hs)
          (server_resolve h ctx link my_dest name)
          ((service, name) ∷ hs)
  unfolding server_resolve
  server_resolve-Does name =
      acquire-Does h.device (Ended h (scan_dest h.ntohl) hs) address_list _ _ ((service, name) ∷ hs)
        (release-Does h.device (Ended h (scan_dest h.ntohl) hs) service name (pure none) hs
          (λ w e. e))
        (λ res.
          Gives-Does h.device (Ended h (scan_dest h.ntohl) hs) (server_socket h h.addresses)
            (server_bound h ctx link my_dest name res) ((address_list, res) ∷ (service, name) ∷ hs)
            (λ s. with_socket s ((address_list, res) ∷ (service, name) ∷ hs))
            (server_socket-Opened h h.addresses ((address_list, res) ∷ (service, name) ∷ hs))
            (server_bound-Does name res))

-- `pp_server_exch_dest` gives back, on every path, the listening socket, the connection and all that it
-- has allocated but the destination: it comes back with NULL and what it held before, the destination freed, or with
-- a destination that is what `sscanf` reads from a message received, and the memory of that. It has undefined behaviour
-- only if a message received is no destination.
pub pp_server_exch_dest-Ended :
    (h : Host) (ctx : PingpongContext) (link : Link) (my_dest : PingpongDest) (hs : Held)
    (w : World (Unit {0}) Call)
    → held w.log ≡ some hs
    → Ended h (scan_dest h.ntohl) hs (pp_server_exch_dest h ctx link my_dest w)
unfolding pp_server_exch_dest
pp_server_exch_dest-Ended h ctx link my_dest hs =
    acquire-Does h.device (Ended h (scan_dest h.ntohl) hs) service (pure none)
      (server_resolve h ctx link my_dest) hs (λ w e. e) (server_resolve-Does h hs ctx link my_dest)
