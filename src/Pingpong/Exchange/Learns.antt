-- ===== src/Pingpong/Exchange/Learns.antt =====
-- `pp_client_exch_dest` and `pp_server_exch_dest` of rc_pingpong.c on a network that works: rules for what a
-- side learns, and for what others notice of it.
use cs594_dcn_f.Prelude.{
  ℕ, suc, ◌≡◌, refl, Bool, false, Option, none, some, List, [], ◌∷◌, length, ◌==◌, ==_refl,
  if◌then◌else◌,
}
use cs594_dcn_f.Effects.{
  World, Outcome, Log, Gives, Gives-bind, ◌>>◌, ◌>>=◌, pure, call, call_, stored, deref,
}
use cs594_dcn_f.Pingpong.Api.{
  Kind, service, address_list, socket, connection, ConnectAttr, Call, acquire, release, modify_qp,
  set_reuse_addr, connect_socket, bind_socket, write_socket, receive,
}
use cs594_dcn_f.Pingpong.Context.{P}
use cs594_dcn_f.Pingpong.Context.Resources.{called}
use cs594_dcn_f.Pingpong.Dest.{
  PingpongDest, Draft, whole, dest_message, scan_dest, scan_draft, message_size,
}
use cs594_dcn_f.Pingpong.Dest.RoundTrip.{
  ByteOrder, IsDest, scan_dest-dest_message, scan_draft-dest_message,
}
use cs594_dcn_f.Pingpong.Exchange.{
  Host, Answer, client_out, client_socket, server_out, server_socket,
}

-- What others notice of a program: the messages it writes, and the states into which it puts its queue pair.
pub data Event : Type 0 where
  told : List ℕ → Event
  moved : ℕ → ConnectAttr → Event

abbrev pub event : Call → List Event → List Event
event (write_socket s bytes) es = told bytes ∷ es
event (modify_qp qp attr use_ooo) es = moved qp attr ∷ es
event _ es = es

-- The newest first.
abbrev pub events : Log Call → List Event
events [] = []
events ((c, r) ∷ log) = event c (events log)

-- The bytes that a server has to read after `es`: the address of its client, or "done" after its own.
abbrev pub to_server : List Event → ℕ
to_server [] = message_size
to_server (told bytes ∷ es) = 5
to_server (moved qp attr ∷ es) = to_server es

abbrev pub to_client : List Event → ℕ
to_client es = message_size

-- A host on which every call succeeds, and which receives the message of `peer`: `incoming` is how many bytes there
-- are to be read.
pub record Works (h : Host) (incoming : List Event → ℕ) (peer : PingpongDest) : Type 0 where
  pub acquires : (log : Log Call) (k : Kind) → (h.device.answer log (acquire k) == 0) ≡ false
  pub connects : (log : Log Call) (s : ℕ) → h.device.answer log (connect_socket s) ≡ 0
  pub binds : (log : Log Call) (s : ℕ) → h.device.answer log (bind_socket s) ≡ 0
  pub modifies :
      (log : Log Call) (qp : ℕ) (attr : ConnectAttr) (use_ooo : Bool)
      → h.device.answer log (modify_qp qp attr use_ooo) ≡ 0
  pub writes :
      (log : Log Call) (s : ℕ) (bytes : List ℕ)
      → h.device.answer log (write_socket s bytes) ≡ length bytes
  pub reads :
      (log : Log Call) (s : ℕ)
      → h.device.answer log (receive s message_size) ≡ incoming (events log)
  pub message : (log : Log Call) → h.received log ≡ dest_message h.htonl peer
  pub address : ℕ
  pub addresses_are : h.addresses ≡ suc address
  pub order : ByteOrder h.htonl h.ntohl

-- `peer` is what is returned.
abbrev pub IsPeer : {D : Type 0} → D → Answer D → Type 0
IsPeer peer none = ⊥
IsPeer peer (some (p, dest)) = dest ≡ peer

abbrev pub Learnt : {D : Type 0} → D → List Event → Outcome (Unit {0}) Call (Answer D) → Type 0
Learnt peer out o = Gives o (λ a w. IsPeer peer a × (events w.log ≡ out)) (λ w. ⊥)

module _ (h : Host) (incoming : List Event → ℕ) (peer : PingpongDest) (ok : Works h incoming peer)
    {D : Type 0} (found : D) (out : List Event) where
  abbrev pub Learns : P (Answer D) → List Event → Type 0
  Learns m es = (w : World (Unit {0}) Call) → events w.log ≡ es → Learnt found out (m w)

  pub acquire-Learns :
      (k : Kind) (failed : P (Answer D)) (next : ℕ → P (Answer D)) (es : List Event)
      → ((p : ℕ) → Learns (next p) es)
      → Learns (call h.device.answer (acquire k) >>= λ p. if p == 0 then failed else next p) es
  acquire-Learns k failed next es rest w e =
      rw (ok.acquires w.log k)
        (rest (h.device.answer w.log (acquire k)) (called h.device (acquire k) w) e)

  -- A call whose answer is known, and is the one that is tested for.
  pub answer-Learns :
      (c : Call) (v : ℕ) (yes_ no_ : P (Answer D)) (es : List Event)
      → ((log : Log Call) → h.device.answer log c ≡ v)
      → Learns yes_ (event c es)
      → Learns (call h.device.answer c >>= λ r. if r == v then yes_ else no_) es
  answer-Learns c v yes_ no_ es known rest w e =
      rw (known w.log, ==_refl v)
        (rest (record { state = w.state; log = (c, v) ∷ w.log }) (rw e refl))

  pub receive-Learns :
      (s : ℕ) (yes_ : List ℕ → P (Answer D)) (no_ : P (Answer D)) (es : List Event)
      → incoming es ≡ message_size
      → ((log : Log Call) → Learns (yes_ (h.received log)) es)
      → Learns
          (call h.device.answer (receive s message_size) >>= λ n.
            stored h.received >>= λ msg. if n == message_size then yes_ msg else no_)
          es
  receive-Learns s yes_ no_ es size rest w e =
      rw (ok.reads w.log s, e, size)
        (rest ((receive s message_size, message_size) ∷ w.log)
          (record { state = w.state; log = (receive s message_size, message_size) ∷ w.log }) e)

  pub call_-Learns :
      (c : Call) (m : P (Answer D)) (es : List Event)
      → Learns m (event c es)
      → Learns (call_ h.device.answer c >> m) es
  call_-Learns c m es rest w e = rest (called h.device c w) (rw e refl)

  -- A part that opens a socket.
  pub opens-Learns :
      (m : P ℕ) (failed : P (Answer D)) (next : ℕ → P (Answer D)) (es : List Event)
      → ((w : World (Unit {0}) Call)
          → events w.log ≡ es
          → Gives (m w) (λ s w'. ((s == 0) ≡ false) × (events w'.log ≡ es)) (λ w'. ⊥))
      → ((s : ℕ) → (s == 0) ≡ false → Learns (next s) es)
      → Learns (m >>= next) es
  opens-Learns m failed next es part rest w e =
      Gives-bind m next w (λ s w'. ((s == 0) ≡ false) × (events w'.log ≡ es))
        (λ a w'. IsPeer found a × (events w'.log ≡ out)) (λ w'. ⊥) (part w e)
        (λ s w' t. rest s t.0 w' t.1)

  -- The freeing behind the loops.
  pub free_names-Learns :
      (m : P (Answer D)) (name res s : ℕ) (es : List Event)
      → (s == 0) ≡ false
      → Learns m es
      → Learns
          (call_ h.device.answer (release address_list res)
            >> (call_ h.device.answer (release service name) >> (if s == 0 then pure none else m)))
          es
  free_names-Learns m name res s es open_ rest = rw (open_) (
      call_-Learns (release address_list res) (call_ h.device.answer (release service name) >> m) es
        (call_-Learns (release service name) m es rest))

  pub deref-Learns :
      {E : Type 0} (o : Option E) (value : E)
      → o ≡ some value
      → (next : E → P (Answer D)) (es : List Event) → Learns (next value) es
      → Learns (deref o >>= next) es
  deref-Learns o value known next es rest = rw (known) rest

-- The way out with an address.
module _ (h : Host) (incoming : List Event → ℕ) (peer : PingpongDest)
    (ok : Works h incoming peer) where
  pub client_out-Learns :
      (found : Draft) (out : List Event) (s p : ℕ)
      → Learns h incoming peer ok found out (client_out h s (some (p, found))) out
  unfolding client_out
  client_out-Learns found out s p =
      call_-Learns h incoming peer ok found out (release socket s) (pure (some (p, found))) out
        (λ w e. (refl, e))

  pub server_out-Learns :
      (found : PingpongDest) (out : List Event) (c p : ℕ)
      → Learns h incoming peer ok found out (server_out h c (some (p, found))) out
  unfolding server_out
  server_out-Learns found out c p =
      call_-Learns h incoming peer ok found out (release connection c) (pure (some (p, found))) out
        (λ w e. (refl, e))

-- The message of the peer, as each side reads it.
module _ (h : Host) (incoming : List Event → ℕ) (peer : PingpongDest) (ok : Works h incoming peer)
    (known : IsDest peer) (log : Log Call) where
  pub server_reads : scan_dest h.ntohl (h.received log) ≡ some peer
  server_reads =
      rw (ok.message log) ((scan_dest-dest_message h.htonl h.ntohl ok.order peer known).1)

  pub client_reads : (gid : List ℕ) → scan_draft h.ntohl gid (h.received log) ≡ some (whole peer)
  client_reads gid =
      rw (ok.message log) (scan_draft-dest_message h.htonl h.ntohl ok.order peer known gid)

-- What both sides do with the addresses.
module _ (h : Host) (incoming : List Event → ℕ) (peer : PingpongDest)
    (ok : Works h incoming peer) where
  pub first_socket :
      (n : ℕ) (es : List Event) (w : World (Unit {0}) Call)
      → events w.log ≡ es
      → Gives
          (client_socket h (suc n) w)
          (λ s w'. ((s == 0) ≡ false) × (events w'.log ≡ es))
          (λ w'. ⊥)
  unfolding client_socket
  first_socket n es w e =
      let s : ℕ = h.device.answer w.log (acquire socket) in
      let log : Log Call = (acquire socket, s) ∷ w.log in
      rw (ok.acquires w.log socket) (rw (ok.connects log s) (ok.acquires w.log socket, e))

  pub first_bound :
      (n : ℕ) (es : List Event) (w : World (Unit {0}) Call)
      → events w.log ≡ es
      → Gives
          (server_socket h (suc n) w)
          (λ s w'. ((s == 0) ≡ false) × (events w'.log ≡ es))
          (λ w'. ⊥)
  unfolding server_socket
  first_bound n es w e =
      let s : ℕ = h.device.answer w.log (acquire socket) in
      let log : Log Call = (acquire socket, s) ∷ w.log in
      let log' : Log Call = (set_reuse_addr s, h.device.answer log (set_reuse_addr s)) ∷ log in
      rw (ok.acquires w.log socket) (rw (ok.binds log' s) (ok.acquires w.log socket, e))
