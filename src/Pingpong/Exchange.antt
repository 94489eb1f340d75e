-- ===== src/Pingpong/Exchange.antt =====
-- `pp_client_exch_dest` and `pp_server_exch_dest` of examples/libibverbs-examples/rc_pingpong.c: the two
-- sides tell each other their addresses over a socket.
pub mod Steps
pub mod Balance
pub mod Listen
pub mod Learns
pub mod Agreement
use cs594_dcn_f.Prelude.{
  ℕ, zero, suc, ◌^◌, Bool, true, false, ◌||◌, Option, none, some, List, [], ◌∷◌, ◌++◌, leb, ◌==◌,
  if◌then◌else◌,
}
use cs594_dcn_f.Effects.{M, Log, ◌>>=◌, ◌>>◌, pure, call, call_, stored, deref}
use cs594_dcn_f.Pingpong.Api.{
  Kind, service, address_list, socket, connection, dest_memory, Call, acquire, release,
  set_reuse_addr, connect_socket, bind_socket, listen_socket, write_socket, receive, Device,
}
use cs594_dcn_f.Pingpong.Context.{P, PingpongContext}
use cs594_dcn_f.Pingpong.Connect.{pp_connect_ctx}
use cs594_dcn_f.Pingpong.Gid.{gid_to_wire_gid}
use cs594_dcn_f.Pingpong.Dest.{
  PingpongDest, Draft, dest_message, scan_dest, scan_draft, message_size,
}

-- A machine: its devices and its network. `addresses` is how many addresses `getaddrinfo` lists,
-- `received` what the last `recv` has put into `msg`.
pub record Host : Type 0 where
  pub device : Device
  pub addresses : ℕ
  pub received : Log Call → List ℕ
  pub htonl : ℕ → ℕ
  pub ntohl : ℕ → ℕ

-- "done" and its NUL.
abbrev pub done_message : List ℕ
done_message = 100 ∷ 111 ∷ 110 ∷ 101 ∷ 0 ∷ []

-- `read(...) <= 0`, with an `ssize_t` as its bit pattern.
abbrev pub not_positive : ℕ → Bool
not_positive r = r == 0 || leb (2 ^ 63) r

-- What is returned: the address of a `struct pingpong_dest`, with what it holds, or NULL. The client
-- returns it with fields that may have no value; the server has read them all before.
abbrev pub Answer : Type 0 → Type 0
Answer D = Option (ℕ × D)

-- The arguments of `pp_connect_ctx` that the server passes on.
pub record Link : Type 0 where
  pub use_ooo : Bool
  pub port : ℕ
  pub mtu : ℕ
  pub sl : ℕ
  pub sgid_idx : ℕ

module _ (h : Host) where
  abbrev answer : Log Call → Call → ℕ
  answer = h.device.answer

  -- The label `out` of the client, and what it returns.
  unfoldable pub client_out : ℕ → Answer Draft → P (Answer Draft)
  client_out sockfd r = do call_ answer (release socket sockfd); pure r

  -- The loop over the addresses, on the client; 0 is for -1.
  unfoldable pub client_socket : ℕ → P ℕ
  client_socket zero = pure 0
  client_socket (suc n) = do
    sockfd ← call answer (acquire socket)
    let rest = client_socket n
    (if sockfd == 0
        then rest
        else (call answer (connect_socket sockfd) >>= λ r.
            if r == 0 then pure sockfd else (call_ answer (release socket sockfd) >> rest)))

  -- The array `gid` holds the text of the client's own GID.
  abbrev pub own_gid : PingpongDest → List ℕ
  own_gid my_dest = gid_to_wire_gid h.htonl my_dest.gid ++ 0 ∷ []

  unfoldable pub client_dest : PingpongDest → ℕ → List ℕ → P (Answer Draft)
  client_dest my_dest sockfd msg = do
    rem_dest ← call answer (acquire dest_memory)
    (if rem_dest == 0
        then client_out sockfd none
        else (deref (scan_draft h.ntohl (own_gid my_dest) msg) >>= λ dest.
            client_out sockfd (some (rem_dest, dest))))

  unfoldable pub client_done : PingpongDest → ℕ → List ℕ → P (Answer Draft)
  client_done my_dest sockfd msg = do
    r ← call answer (write_socket sockfd done_message)
    (if r == 5 then client_dest my_dest sockfd msg else client_out sockfd none)

  unfoldable pub client_receive : PingpongDest → ℕ → P (Answer Draft)
  client_receive my_dest sockfd = do
    n ← call answer (receive sockfd message_size)
    msg ← stored h.received
    (if n == message_size then client_done my_dest sockfd msg else client_out sockfd none)

  unfoldable pub client_send : PingpongDest → ℕ → P (Answer Draft)
  client_send my_dest sockfd = do
    r ← call answer (write_socket sockfd (dest_message h.htonl my_dest))
    (if r == message_size then client_receive my_dest sockfd else client_out sockfd none)

  -- The list of addresses and the service are freed behind the loop, whether or not it found a socket.
  unfoldable pub client_connected : PingpongDest → ℕ → ℕ → ℕ → P (Answer Draft)
  client_connected my_dest name res sockfd = do
    call_ answer (release address_list res)
    call_ answer (release service name)
    (if sockfd == 0 then pure none else client_send my_dest sockfd)

  unfoldable pub client_resolve : PingpongDest → ℕ → P (Answer Draft)
  client_resolve my_dest name = do
    res ← call answer (acquire address_list)
    (if res == 0
        then (call_ answer (release service name) >> pure none)
        else (client_socket h.addresses >>= λ sockfd. client_connected my_dest name res sockfd))

  unfoldable pub pp_client_exch_dest : PingpongDest → P (Answer Draft)
  pp_client_exch_dest my_dest = do
    name ← call answer (acquire service)
    (if name == 0 then pure none else client_resolve my_dest name)

  -- The label `out` of the server.
  unfoldable pub server_out : ℕ → Answer PingpongDest → P (Answer PingpongDest)
  server_out connfd r = do call_ answer (release connection connfd); pure r

  -- `free(rem_dest)` before `out`.
  unfoldable pub server_drop : ℕ → ℕ → P (Answer PingpongDest)
  server_drop connfd rem_dest = do
    call_ answer (release dest_memory rem_dest)
    server_out connfd none

  -- The loop over the addresses, on the server.
  unfoldable pub server_socket : ℕ → P ℕ
  server_socket zero = pure 0
  server_socket (suc n) = do
    sockfd ← call answer (acquire socket)
    let rest = server_socket n
    (if sockfd == 0
        then rest
        else (call_ answer (set_reuse_addr sockfd)
            >> (call answer (bind_socket sockfd) >>= λ r.
                if r == 0 then pure sockfd else (call_ answer (release socket sockfd) >> rest))))

  unfoldable pub server_wait : ℕ → ℕ → PingpongDest → P (Answer PingpongDest)
  server_wait connfd rem_dest dest = do
    n ← call answer (receive connfd message_size)
    (if not_positive n
        then server_drop connfd rem_dest
        else server_out connfd (some (rem_dest, dest)))

  unfoldable pub server_reply : PingpongDest → ℕ → ℕ → PingpongDest → P (Answer PingpongDest)
  server_reply my_dest connfd rem_dest dest = do
    n ← call answer (write_socket connfd (dest_message h.htonl my_dest))
    (if n == message_size then server_wait connfd rem_dest dest else server_drop connfd rem_dest)

  unfoldable pub server_connect :
      PingpongContext → Link → PingpongDest → ℕ → ℕ → PingpongDest → P (Answer PingpongDest)
  server_connect ctx link my_dest connfd rem_dest dest = do
    r ←
        pp_connect_ctx h.device link.use_ooo ctx link.port my_dest.psn link.mtu link.sl dest
          link.sgid_idx
    (if r == 0 then server_reply my_dest connfd rem_dest dest else server_drop connfd rem_dest)

  unfoldable pub server_dest :
      PingpongContext → Link → PingpongDest → ℕ → List ℕ → P (Answer PingpongDest)
  server_dest ctx link my_dest connfd msg = do
    rem_dest ← call answer (acquire dest_memory)
    (if rem_dest == 0
        then server_out connfd none
        else (deref (scan_dest h.ntohl msg) >>= λ dest.
            server_connect ctx link my_dest connfd rem_dest dest))

  unfoldable pub server_receive :
      PingpongContext → Link → PingpongDest → ℕ → P (Answer PingpongDest)
  server_receive ctx link my_dest connfd = do
    n ← call answer (receive connfd message_size)
    msg ← stored h.received
    (if n == message_size then server_dest ctx link my_dest connfd msg else server_out connfd none)

  -- The listening socket is closed as soon as `accept` has returned.
  unfoldable pub server_accept : PingpongContext → Link → PingpongDest → ℕ → P (Answer PingpongDest)
  server_accept ctx link my_dest sockfd = do
    call_ answer (listen_socket sockfd)
    connfd ← call answer (acquire connection)
    call_ answer (release socket sockfd)
    (if connfd == 0 then pure none else server_receive ctx link my_dest connfd)

  unfoldable pub server_bound :
      PingpongContext → Link → PingpongDest → ℕ → ℕ → ℕ → P (Answer PingpongDest)
  server_bound ctx link my_dest name res sockfd = do
    call_ answer (release address_list res)
    call_ answer (release service name)
    (if sockfd == 0 then pure none else server_accept ctx link my_dest sockfd)

  unfoldable pub server_resolve :
      PingpongContext → Link → PingpongDest → ℕ → P (Answer PingpongDest)
  server_resolve ctx link my_dest name = do
    res ← call answer (acquire address_list)
    (if res == 0
        then (call_ answer (release service name) >> pure none)
        else (server_socket h.addresses >>= λ sockfd.
            server_bound ctx link my_dest name res sockfd))

  unfoldable pub pp_server_exch_dest :
      PingpongContext → Link → PingpongDest → P (Answer PingpongDest)
  pp_server_exch_dest ctx link my_dest = do
    name ← call answer (acquire service)
    (if name == 0 then pure none else server_resolve ctx link my_dest name)
