-- ===== src/Pingpong/Exchange/Agreement.antt =====
-- `pp_client_exch_dest` and `pp_server_exch_dest` of rc_pingpong.c on a network that works: what each side
-- learns, and in which order it acts.
use cs594_dcn_f.Prelude.{
  ℕ, suc, ◌≡◌, refl, ◌∙◌, false, none, some, List, [], ◌∷◌, length, ◌==◌, if◌then◌else◌,
}
use cs594_dcn_f.Effects.{World, Log, Gives, Gives-bind, ◌>>◌, ◌>>=◌, pure, call, call_, deref}
use cs594_dcn_f.Pingpong.Api.{
  service, address_list, socket, connection, dest_memory, ConnectAttr, Call, acquire, release,
  modify_qp, listen_socket, write_socket, receive,
}
use cs594_dcn_f.Pingpong.Context.{PingpongContext}
use cs594_dcn_f.Pingpong.Context.Resources.{called}
use cs594_dcn_f.Pingpong.Connect.{rtr_attr, rts_attr, pp_connect_ctx}
use cs594_dcn_f.Pingpong.Dest.{
  PingpongDest, whole, dest_message, scan_dest, scan_draft, message_size,
}
use cs594_dcn_f.Pingpong.Dest.RoundTrip.{ByteOrder, IsDest, scan_dest-dest_message}
use cs594_dcn_f.Pingpong.Exchange.{
  Host, own_gid, Link, done_message, client_out, client_socket, client_dest, client_done,
  client_receive, client_send, client_connected, client_resolve, pp_client_exch_dest, server_out,
  server_drop, server_socket, server_wait, server_reply, server_connect, server_dest,
  server_receive, server_accept, server_bound, server_resolve, pp_server_exch_dest,
}
use cs594_dcn_f.Pingpong.Exchange.Learns.{
  server_reads, client_reads, Event, told, moved, events, to_server, to_client, Works, IsPeer,
  Learnt, Learns, acquire-Learns, answer-Learns, receive-Learns, call_-Learns, opens-Learns,
  free_names-Learns, deref-Learns, client_out-Learns, server_out-Learns, first_socket, first_bound,
}

-- What a client, and what a server, does in order; the newest first.
abbrev pub client_events : (ℕ → ℕ) → PingpongDest → List Event
client_events htonl my_dest = told done_message ∷ told (dest_message htonl my_dest) ∷ []

abbrev pub server_events :
    (ℕ → ℕ) → PingpongContext → Link → PingpongDest → PingpongDest → List Event
server_events htonl ctx link my_dest dest =
    let attr = rtr_attr link.port link.mtu link.sl dest link.sgid_idx in
    told (dest_message htonl my_dest)
    ∷ moved ctx.qp (rts_attr my_dest.psn attr)
    ∷ moved ctx.qp attr
    ∷ []

module _ (h : Host) (my_dest peer : PingpongDest) (mine : IsDest my_dest)
    (known : IsDest peer) where
  length-mine :
      (order : ByteOrder h.htonl h.ntohl) → length (dest_message h.htonl my_dest) ≡ message_size
  length-mine order = (scan_dest-dest_message h.htonl h.ntohl order my_dest mine).0

  module _ (ok : Works h to_client peer) where
    abbrev mine_told : List Event
    mine_told = told (dest_message h.htonl my_dest) ∷ []

    abbrev all_told : List Event
    all_told = client_events h.htonl my_dest

    client_dest-Learns :
        (s : ℕ) (log : Log Call)
        → Learns h to_client peer ok
            (whole peer)
            all_told
            (client_dest h my_dest s (h.received log))
            all_told
    unfolding client_dest
    client_dest-Learns s log =
        acquire-Learns h to_client peer ok (whole peer) all_told dest_memory (client_out h s none) _
          all_told
          (λ p.
            deref-Learns h to_client peer ok (whole peer) all_told
              (scan_draft h.ntohl (own_gid h my_dest) (h.received log)) (whole peer)
              (client_reads h to_client peer ok known log (own_gid h my_dest))
              (λ dest. client_out h s (some (p, dest))) all_told
              (client_out-Learns h to_client peer ok (whole peer) all_told s p))

    client_done-Learns :
        (s : ℕ) (log : Log Call)
        → Learns h to_client peer ok
            (whole peer)
            all_told
            (client_done h my_dest s (h.received log))
            mine_told
    unfolding client_done
    client_done-Learns s log =
        answer-Learns h to_client peer ok (whole peer) all_told (write_socket s done_message) 5
          (client_dest h my_dest s (h.received log)) (client_out h s none) mine_told
          (λ before. ok.writes before s done_message) (client_dest-Learns s log)

    client_receive-Learns :
        (s : ℕ)
        → Learns h to_client peer ok (whole peer) all_told (client_receive h my_dest s) mine_told
    unfolding client_receive
    client_receive-Learns s =
        receive-Learns h to_client peer ok (whole peer) all_told s (client_done h my_dest s)
          (client_out h s none) mine_told refl (client_done-Learns s)

    client_send-Learns :
        (s : ℕ) → Learns h to_client peer ok (whole peer) all_told (client_send h my_dest s) []
    unfolding client_send
    client_send-Learns s =
        answer-Learns h to_client peer ok (whole peer) all_told
          (write_socket s (dest_message h.htonl my_dest)) message_size (client_receive h my_dest s)
          (client_out h s none) []
          (λ before. ok.writes before s (dest_message h.htonl my_dest) ∙ length-mine ok.order)
          (client_receive-Learns s)

    client_connected-Learns :
        (name res s : ℕ)
        → (s == 0) ≡ false
        → Learns h to_client peer ok
            (whole peer)
            all_told
            (client_connected h my_dest name res s)
            []
    unfolding client_connected
    client_connected-Learns name res s open_ =
        free_names-Learns h to_client peer ok (whole peer) all_told (client_send h my_dest s) name
          res s [] open_ (client_send-Learns s)

    client_found-Learns :
        (name res n : ℕ)
        → n ≡ suc ok.address
        → Learns h to_client peer ok
            (whole peer)
            all_told
            (client_socket h n >>= λ s. client_connected h my_dest name res s)
            []
    client_found-Learns name res n some_ = rw (some_) (
        opens-Learns h to_client peer ok (whole peer) all_told (client_socket h (suc ok.address))
          (pure none) (client_connected h my_dest name res) []
          (first_socket h to_client peer ok ok.address []) (client_connected-Learns name res))

    client_resolve-Learns :
        (name : ℕ)
        → Learns h to_client peer ok (whole peer) all_told (client_resolve h my_dest name) []
    unfolding client_resolve
    client_resolve-Learns name =
        acquire-Learns h to_client peer ok (whole peer) all_told address_list
          (call_ h.device.answer (release service name) >> pure none)
          (λ res. client_socket h h.addresses >>= λ s. client_connected h my_dest name res s) []
          (λ res. client_found-Learns name res h.addresses ok.addresses_are)

    client-Learns :
        Learns h to_client peer ok (whole peer) all_told (pp_client_exch_dest h my_dest) []
    unfolding pp_client_exch_dest
    client-Learns =
        acquire-Learns h to_client peer ok (whole peer) all_told service (pure none)
          (client_resolve h my_dest) [] client_resolve-Learns

  module _ (ctx : PingpongContext) (link : Link) (ok : Works h to_server peer) where
    abbrev attr : ConnectAttr
    attr = rtr_attr link.port link.mtu link.sl peer link.sgid_idx

    abbrev connected : List Event
    connected = moved ctx.qp (rts_attr my_dest.psn attr) ∷ moved ctx.qp attr ∷ []

    abbrev replied : List Event
    replied = server_events h.htonl ctx link my_dest peer

    server_wait-Learns :
        (c p : ℕ) → Learns h to_server peer ok peer replied (server_wait h c p peer) replied
    unfolding server_wait
    server_wait-Learns c p w e =
        rw (ok.reads w.log c, e)
          (server_out-Learns h to_server peer ok peer replied c p
            (record { state = w.state; log = (receive c message_size, 5) ∷ w.log }) e)

    server_reply-Learns :
        (c p : ℕ)
        → Learns h to_server peer ok peer replied (server_reply h my_dest c p peer) connected
    unfolding server_reply
    server_reply-Learns c p =
        answer-Learns h to_server peer ok peer replied
          (write_socket c (dest_message h.htonl my_dest)) message_size (server_wait h c p peer)
          (server_drop h c p) connected
          (λ before. ok.writes before c (dest_message h.htonl my_dest) ∙ length-mine ok.order)
          (server_wait-Learns c p)

    connect_ctx-moves :
        (w : World (Unit {0}) Call)
        → events w.log ≡ []
        → Gives
            (pp_connect_ctx h.device link.use_ooo ctx link.port my_dest.psn link.mtu link.sl peer
              link.sgid_idx w)
            (λ r w'. (r ≡ 0) × (events w'.log ≡ connected))
            (λ w'. ⊥)
    unfolding pp_connect_ctx
    connect_ctx-moves w e = rw (ok.modifies w.log ctx.qp attr link.use_ooo) (
        rw
          (ok.modifies ((modify_qp ctx.qp attr link.use_ooo, 0) ∷ w.log) ctx.qp
            (rts_attr my_dest.psn attr) false)
          (refl, rw (e) refl))

    server_connect-Learns :
        (c p : ℕ)
        → Learns h to_server peer ok peer replied (server_connect h ctx link my_dest c p peer) []
    unfolding server_connect
    server_connect-Learns c p w e =
        Gives-bind
          (pp_connect_ctx h.device link.use_ooo ctx link.port my_dest.psn link.mtu link.sl peer
            link.sgid_idx)
          (λ r. if r == 0 then server_reply h my_dest c p peer else server_drop h c p) w
          (λ r w'. (r ≡ 0) × (events w'.log ≡ connected))
          (λ a w'. IsPeer peer a × (events w'.log ≡ replied)) (λ w'. ⊥) (connect_ctx-moves w e)
          (λ r w' t. rw (t.0) (server_reply-Learns c p w' t.1))

    server_dest-Learns :
        (c : ℕ) (log : Log Call)
        → Learns h to_server peer ok peer replied
            (server_dest h ctx link my_dest c (h.received log))
            []
    unfolding server_dest
    server_dest-Learns c log =
        acquire-Learns h to_server peer ok peer replied dest_memory (server_out h c none)
          (λ p. deref (scan_dest h.ntohl (h.received log)) >>= λ dest.
            server_connect h ctx link my_dest c p dest)
          []
          (λ p.
            deref-Learns h to_server peer ok peer replied (scan_dest h.ntohl (h.received log)) peer
              (server_reads h to_server peer ok known log) (server_connect h ctx link my_dest c p)
              [] (server_connect-Learns c p))

    server_receive-Learns :
        (c : ℕ) → Learns h to_server peer ok peer replied (server_receive h ctx link my_dest c) []
    unfolding server_receive
    server_receive-Learns c =
        receive-Learns h to_server peer ok peer replied c (server_dest h ctx link my_dest c)
          (server_out h c none) [] refl (server_dest-Learns c)

    server_accept-Learns :
        (s : ℕ) → Learns h to_server peer ok peer replied (server_accept h ctx link my_dest s) []
    unfolding server_accept
    server_accept-Learns s =
        call_-Learns h to_server peer ok peer replied (listen_socket s)
          (call h.device.answer (acquire connection) >>= λ c.
            call_ h.device.answer (release socket s)
            >> (if c == 0 then pure none else server_receive h ctx link my_dest c))
          []
          (λ w e.
            let c = h.device.answer w.log (acquire connection) in
            call_-Learns h to_server peer ok peer replied (release socket s)
              (if c == 0 then pure none else server_receive h ctx link my_dest c) []
              (rw (ok.acquires w.log connection) (server_receive-Learns c))
              (called h.device (acquire connection) w) e)

    server_bound-Learns :
        (name res s : ℕ)
        → (s == 0) ≡ false
        → Learns h to_server peer ok peer replied (server_bound h ctx link my_dest name res s) []
    unfolding server_bound
    server_bound-Learns name res s open_ =
        free_names-Learns h to_server peer ok peer replied (server_accept h ctx link my_dest s) name
          res s [] open_ (server_accept-Learns s)

    server_found-Learns :
        (name res n : ℕ)
        → n ≡ suc ok.address
        → Learns h to_server peer ok peer replied
            (server_socket h n >>= λ s. server_bound h ctx link my_dest name res s)
            []
    server_found-Learns name res n some_ = rw (some_) (
        opens-Learns h to_server peer ok peer replied (server_socket h (suc ok.address)) (pure none)
          (server_bound h ctx link my_dest name res) []
          (first_bound h to_server peer ok ok.address []) (server_bound-Learns name res))

    server_resolve-Learns :
        (name : ℕ)
        → Learns h to_server peer ok peer replied (server_resolve h ctx link my_dest name) []
    unfolding server_resolve
    server_resolve-Learns name =
        acquire-Learns h to_server peer ok peer replied address_list
          (call_ h.device.answer (release service name) >> pure none)
          (λ res. server_socket h h.addresses >>= λ s. server_bound h ctx link my_dest name res s)
          [] (λ res. server_found-Learns name res h.addresses ok.addresses_are)

    server-Learns :
        Learns h to_server peer ok peer replied (pp_server_exch_dest h ctx link my_dest) []
    unfolding pp_server_exch_dest
    server-Learns =
        acquire-Learns h to_server peer ok peer replied service (pure none)
          (server_resolve h ctx link my_dest) [] server_resolve-Learns

-- On machines of one byte order where every call succeeds and each side receives the message of the other, the exchange
-- ends on both sides, the client with the server's destination and the server with the client's. The client writes its
-- own address and then "done"; the server brings its queue pair to RTR and RTS with what the client has
-- said, and only then writes its own address.
pub pp_exch_dest-Agreement :
    (c s : Host) (ctx : PingpongContext) (link : Link) (client server : PingpongDest)
    → IsDest client
    → IsDest server
    → Works c to_client server
    → Works s to_server client
    → (w v : World (Unit {0}) Call) → events w.log ≡ []
    → events v.log ≡ []
    → Learnt (whole server) (client_events c.htonl client) (pp_client_exch_dest c client w)
      × Learnt client
          (server_events s.htonl ctx link server client)
          (pp_server_exch_dest s ctx link server v)
pp_exch_dest-Agreement c s ctx link client server known_c known_s ok_c ok_s w v e e' = (
  client-Learns c client server known_c known_s ok_c w e,
  server-Learns s server client known_s known_c ctx link ok_s v e',
)
