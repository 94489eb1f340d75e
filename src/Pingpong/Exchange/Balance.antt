-- ===== src/Pingpong/Exchange/Balance.antt =====
-- The resources of `pp_client_exch_dest` and `pp_server_exch_dest` of rc_pingpong.c.
use cs594_dcn_f.Prelude.{
  ℕ, zero, suc, ◌≡◌, refl, Bool, true, false, Option, none, some, List, ◌∷◌, ◌==◌, if◌then◌else◌,
}
use cs594_dcn_f.Effects.{World, Outcome, Log, Gives, ◌>>◌, ◌>>=◌, pure, call, call_}
use cs594_dcn_f.Pingpong.Api.{
  Device, service, address_list, socket, dest_memory, Call, acquire, release, connect_socket,
  write_socket, receive,
}
use cs594_dcn_f.Pingpong.Context.{P}
use cs594_dcn_f.Pingpong.Context.Resources.{Held, held, called, release-held}
use cs594_dcn_f.Pingpong.Dest.{PingpongDest, Draft, dest_message, scan_draft, message_size}
use cs594_dcn_f.Pingpong.Exchange.{
  Host, own_gid, done_message, client_out, client_socket, client_dest, client_done, client_receive,
  client_send, client_connected, client_resolve, pp_client_exch_dest,
}
use cs594_dcn_f.Pingpong.Exchange.Steps.{
  Ended, Does, acquire-Does, release-Does, release_second-Does, call-Does, branch-Does, deref-Does,
  Gives-Does,
}

-- What a loop over the addresses holds when it gives `sockfd`.
abbrev pub with_socket : ℕ → Held → Held
with_socket sockfd hs = if sockfd == 0 then hs else ((socket, sockfd) ∷ hs)

module _ (h : Host) where
  abbrev pub Opened : Held → P ℕ → Type 0
  Opened hs m =
      (w : World (Unit {0}) Call)
      → held w.log ≡ some hs
      → Gives (m w) (λ s w'. held w'.log ≡ some (with_socket s hs)) (λ w'. ⊥)

  -- The part of the loops once there is a socket: it is kept, or closed before the next address.
  abbrev pub keep : ℕ → P ℕ → ℕ → P ℕ
  keep s rest r = if r == 0 then pure s else (call_ h.device.answer (release socket s) >> rest)

  pub keep-Opened :
      (s : ℕ) (rest : P ℕ) (hs : Held)
      → Opened hs rest
      → (s == 0) ≡ false
      → (r : ℕ) (w : World (Unit {0}) Call) → held w.log ≡ some ((socket, s) ∷ hs)
      → Gives (keep s rest r w) (λ s' w'. held w'.log ≡ some (with_socket s' hs)) (λ w'. ⊥)
  keep-Opened s rest hs ih t r w e = go (r == 0)
    where
      go :
          (b : Bool)
          → Gives
              ((if b then pure s else (call_ h.device.answer (release socket s) >> rest)) w)
              (λ s' w'. held w'.log ≡ some (with_socket s' hs))
              (λ w'. ⊥)
      go true = rw (t) e
      go false = ih (called h.device (release socket s) w) (release-held h.device socket s hs w e)

  pub open-Opened :
      (rest : P ℕ) (next : ℕ → P ℕ) (hs : Held)
      → Opened hs rest
      → ((s : ℕ)
          → (s == 0) ≡ false
          → (w : World (Unit {0}) Call) → held w.log ≡ some ((socket, s) ∷ hs)
          → Gives (next s w) (λ s' w'. held w'.log ≡ some (with_socket s' hs)) (λ w'. ⊥))
      → Opened hs (call h.device.answer (acquire socket) >>= λ s. if s == 0 then rest else next s)
  open-Opened rest next hs ih found w e = go (s == 0) refl
    where
      s : ℕ
      s = h.device.answer w.log (acquire socket)

      w' : World (Unit {0}) Call
      w' = called h.device (acquire socket) w

      go :
          (b : Bool)
          → (s == 0) ≡ b
          → Gives
              ((if b then rest else next s) w')
              (λ s' w''. held w''.log ≡ some (with_socket s' hs))
              (λ w''. ⊥)
      go true t = ih w' (rw e (rw t refl))
      go false t = found s t w' (rw e (rw t refl))

  pub client_socket-Opened : (n : ℕ) (hs : Held) → Opened hs (client_socket h n)
  unfolding client_socket
  client_socket-Opened zero hs w e = e
  client_socket-Opened (suc n) hs w e =
      open-Opened (client_socket h n)
        (λ s. call h.device.answer (connect_socket s) >>= keep s (client_socket h n)) hs
        (client_socket-Opened n hs)
        (λ s t w e.
          keep-Opened s (client_socket h n) hs (client_socket-Opened n hs) t
            (h.device.answer w.log (connect_socket s)) (called h.device (connect_socket s) w)
            (rw e refl))
        w e

module _ {B : Type 0} (d : Device) (Good : Outcome (Unit {0}) Call B → Type 0) (failed : P B)
    (hs : Held) (fails : Does d Good failed hs) where
  -- Behind the loops: the list of addresses and the service are freed, then what there is a socket for follows.
  pub free_names-Does :
      (m : P B) (name res s : ℕ)
      → Does d Good m ((socket, s) ∷ hs)
      → Does d Good
          (call_ d.answer (release address_list res)
            >> (call_ d.answer (release service name) >> (if s == 0 then failed else m)))
          (with_socket s ((address_list, res) ∷ (service, name) ∷ hs))
  free_names-Does m name res s rest = go (s == 0)
    where
      go :
          (b : Bool)
          → Does d Good
              (call_ d.answer (release address_list res)
                >> (call_ d.answer (release service name) >> (if b then failed else m)))
              (if b
                then ((address_list, res) ∷ (service, name) ∷ hs)
                else ((socket, s) ∷ (address_list, res) ∷ (service, name) ∷ hs))
      go true =
          release-Does d Good address_list res (call_ d.answer (release service name) >> failed)
            ((service, name) ∷ hs) (release-Does d Good service name (failed) hs fails)
      go false =
          release_second-Does d Good address_list socket res s
            (call_ d.answer (release service name) >> m) ((service, name) ∷ hs) refl
            (release_second-Does d Good service socket name s m hs refl rest)

-- What the client makes of a message: its array `gid` holds its own GID before.
abbrev pub client_scan : Host → PingpongDest → List ℕ → Option Draft
client_scan h my_dest msg = scan_draft h.ntohl (own_gid h my_dest) msg

module _ (h : Host) (hs : Held) (my_dest : PingpongDest) where
  client_out-Does :
      (s p : ℕ) (dest : Draft) (log : Log Call)
      → client_scan h my_dest (h.received log) ≡ some dest
      → Does h.device
          (Ended h (client_scan h my_dest) hs)
          (client_out h s (some (p, dest)))
          ((dest_memory, p) ∷ (socket, s) ∷ hs)
  unfolding client_out
  client_out-Does s p dest log t =
      release_second-Does h.device (Ended h (client_scan h my_dest) hs) socket dest_memory s p
        (pure (some (p, dest))) hs refl (λ w e. (e, (log, t)))

  client_out_null-Does :
      (s : ℕ)
      → Does h.device (Ended h (client_scan h my_dest) hs) (client_out h s none) ((socket, s) ∷ hs)
  unfolding client_out
  client_out_null-Does s =
      release-Does h.device (Ended h (client_scan h my_dest) hs) socket s (pure none) hs (λ w e. e)

  client_dest-Does :
      (s : ℕ) (log : Log Call)
      → Does h.device
          (Ended h (client_scan h my_dest) hs)
          (client_dest h my_dest s (h.received log))
          ((socket, s) ∷ hs)
  unfolding client_dest
  client_dest-Does s log =
      acquire-Does h.device (Ended h (client_scan h my_dest) hs) dest_memory (client_out h s none) _
        ((socket, s) ∷ hs) (client_out_null-Does s)
        (λ p.
          deref-Does h (client_scan h my_dest) hs log (λ dest. client_out h s (some (p, dest)))
            ((dest_memory, p) ∷ (socket, s) ∷ hs) (λ dest t. client_out-Does s p dest log t))

  client_done-Does :
      (s : ℕ) (log : Log Call)
      → Does h.device
          (Ended h (client_scan h my_dest) hs)
          (client_done h my_dest s (h.received log))
          ((socket, s) ∷ hs)
  unfolding client_done
  client_done-Does s log =
      call-Does h.device (Ended h (client_scan h my_dest) hs) (write_socket s done_message) _
        ((socket, s) ∷ hs) (λ r. refl)
        (λ r.
          branch-Does h.device (Ended h (client_scan h my_dest) hs) (r == 5) _ _ ((socket, s) ∷ hs)
            (client_dest-Does s log) (client_out_null-Does s))

  client_receive-Does :
      (s : ℕ)
      → Does h.device
          (Ended h (client_scan h my_dest) hs)
          (client_receive h my_dest s)
          ((socket, s) ∷ hs)
  unfolding client_receive
  client_receive-Does s =
      call-Does h.device (Ended h (client_scan h my_dest) hs) (receive s message_size) _
        ((socket, s) ∷ hs) (λ r. refl)
        (λ n w e.
          branch-Does h.device (Ended h (client_scan h my_dest) hs) (n == message_size) _ _
            ((socket, s) ∷ hs) (client_done-Does s w.log) (client_out_null-Does s) w e)

  client_send-Does :
      (s : ℕ)
      → Does h.device
          (Ended h (client_scan h my_dest) hs)
          (client_send h my_dest s)
          ((socket, s) ∷ hs)
  unfolding client_send
  client_send-Does s =
      call-Does h.device (Ended h (client_scan h my_dest) hs)
        (write_socket s (dest_message h.htonl my_dest)) _ ((socket, s) ∷ hs) (λ r. refl)
        (λ r.
          branch-Does h.device (Ended h (client_scan h my_dest) hs) (r == message_size) _ _
            ((socket, s) ∷ hs) (client_receive-Does s) (client_out_null-Does s))

  client_connected-Does :
      (name res s : ℕ)
      → Does h.device
          (Ended h (client_scan h my_dest) hs)
          (client_connected h my_dest name res s)
          (with_socket s ((address_list, res) ∷ (service, name) ∷ hs))
  unfolding client_connected
  client_connected-Does name res s =
      free_names-Does h.device (Ended h (client_scan h my_dest) hs) (pure none) hs (λ w e. e)
        (client_send h my_dest s) name res s (client_send-Does s)

  client_resolve-Does :
      (name : ℕ)
      → Does h.device
          (Ended h (client_scan h my_dest) hs)
          (client_resolve h my_dest name)
          ((service, name) ∷ hs)
  unfolding client_resolve
  client_resolve-Does name =
      acquire-Does h.device (Ended h (client_scan h my_dest) hs) address_list _ _
        ((service, name) ∷ hs)
        (release-Does h.device (Ended h (client_scan h my_dest) hs) service name (pure none) hs
          (λ w e. e))
        (λ res.
          Gives-Does h.device (Ended h (client_scan h my_dest) hs) (client_socket h h.addresses)
            (client_connected h my_dest name res) ((address_list, res) ∷ (service, name) ∷ hs)
            (λ s. with_socket s ((address_list, res) ∷ (service, name) ∷ hs))
            (client_socket-Opened h h.addresses ((address_list, res) ∷ (service, name) ∷ hs))
            (client_connected-Does name res))

-- `pp_client_exch_dest` gives back, on every path, each socket it has opened and all that it has allocated but
-- the destination: it comes back with NULL and what it held before, or with a destination and the memory of
-- that. Its fields are what `sscanf` leaves of a message received: a field that `sscanf` has not reached has no value,
-- and the GID may be, in whole or in part, the client's own. The client has undefined behaviour only if a message received has no NUL,
-- or a GID of more than 32 characters.
pub pp_client_exch_dest-Ended :
    (h : Host) (my_dest : PingpongDest) (hs : Held) (w : World (Unit {0}) Call)
    → held w.log ≡ some hs
    → Ended h (client_scan h my_dest) hs (pp_client_exch_dest h my_dest w)
unfolding pp_client_exch_dest
pp_client_exch_dest-Ended h my_dest hs =
    acquire-Does h.device (Ended h (client_scan h my_dest) hs) service (pure none)
      (client_resolve h my_dest) hs (λ w e. e) (client_resolve-Does h hs my_dest)
