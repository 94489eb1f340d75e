-- ===== src/Pingpong/Srq/Exchange.antt =====
-- `pp_client_exch_dest` and `pp_server_exch_dest` of examples/libibverbs-examples/srq_pingpong.c: the two sides tell each
-- other the address of each of their queue pairs.
pub mod Reads
pub mod Balance
pub mod Client
pub mod Server
use cs594_dcn_f.Prelude.{
  ℕ, zero, suc, ◌+◌, ◌-◌, ◌^◌, Bool, true, false, ◌||◌, Option, none, some, List, [], ◌∷◌, ◌++◌,
  length, take, ltb, leb, ◌==◌, if◌then◌else◌,
}
use cs594_dcn_f.Effects.{M, Log, ◌>>=◌, ◌>>◌, pure, call, call_, stored, deref, halt, hung}
use cs594_dcn_f.Pingpong.Api.{
  Kind, service, address_list, socket, connection, dest_memory, Call, acquire, release,
  listen_socket, write_socket, receive, Device,
}
use cs594_dcn_f.Pingpong.Context.{P}
use cs594_dcn_f.Pingpong.Gid.{gid_to_wire_gid}
use cs594_dcn_f.Pingpong.Dest.{
  PingpongDest, Draft, dest_message, scan_dest, scan_array, read_draft, message_size,
}
use cs594_dcn_f.Pingpong.Exchange.{
  Host, Link, done_message, not_positive, client_socket, server_socket,
}
use cs594_dcn_f.Pingpong.Srq.Context.{SrqContext, in_order}
use cs594_dcn_f.Pingpong.Srq.Connect.{pp_connect_ctx}

-- What is returned: the address of the array `rem_dest`, with those of its elements that have been assigned, or NULL.
-- The client returns them with fields that may have no value; the server has read them all before.
abbrev pub Answers : Type 0 → Type 0
Answers D = Option (ℕ × List D)

-- `r < 0`, with an `int` as its bit pattern.
abbrev pub below_zero : ℕ → Bool
below_zero r = leb (2 ^ 31) r

module _ (h : Host) where
  abbrev answer : Log Call → Call → ℕ
  answer = h.device.answer

  -- The loop that reads one message: `n` bytes are in `msg`, `text`. A read of no bytes, at the end of the stream, does not end it;
  -- `fuel` counts the reads.
  unfoldable pub read_msg : {A : Type 0} → ℕ → ℕ → P A → (List ℕ → P A) → ℕ → List ℕ → P A
  read_msg zero s failed next n text = halt hung
  read_msg (suc fuel) s failed next n text =
      let rest = read_msg fuel s failed next in
      if ltb n message_size
      then (call answer (receive s (message_size - n)) >>= λ r. stored h.received >>= λ bytes.
          if below_zero r then failed else rest (n + r) (text ++ take r bytes))
      else next text

  -- The `sscanf` and `wire_gid_to_gid` behind each message, from the array `gid` and to what it holds then.
  unfoldable pub client_scan : List ℕ → List ℕ → Option (Draft × List ℕ)
  client_scan gid msg = elim (scan_array gid msg) [
    | none ↦ none
    | some gid' ↦ some (read_draft h.ntohl gid' msg, gid')
  ]

  -- On the server the array is empty at first, and an address without a value is used at once.
  unfoldable pub server_scan : Unit {0} → List ℕ → Option (PingpongDest × Unit {0})
  server_scan gid msg = elim (scan_dest h.ntohl msg) [ none ↦ none | some dest ↦ some (dest, gid) ]

  -- The array `gid` of the client behind the loop that sends its addresses: the text of the last.
  abbrev pub last_gid : List ℕ → List PingpongDest → List ℕ
  last_gid gid [] = gid
  last_gid gid (dest ∷ dests) = last_gid (gid_to_wire_gid h.htonl dest.gid ++ 0 ∷ []) dests

  -- The loop over the messages of the peer, with `n` to go.
  unfoldable pub read_dests :
      {A D S : Type 0}
      → ℕ
      → ℕ
      → (S → List ℕ → Option (D × S))
      → (List D → P A)
      → (List D → P A)
      → ℕ
      → S
      → List D
      → P A
  read_dests fuel s scan failed next zero gid dests = next dests
  read_dests fuel s scan failed next (suc n) gid dests =
      let rest = read_dests fuel s scan failed next n in
      read_msg fuel s (failed dests)
        (λ msg. deref (scan gid msg) >>= λ r. rest r.1 (dests ++ r.0 ∷ [])) 0 []

  -- The loop over the addresses that are sent.
  unfoldable pub write_dests : {A : Type 0} → ℕ → P A → P A → List PingpongDest → P A
  write_dests s failed next [] = next
  write_dests s failed next (dest ∷ dests) = do
    let rest = write_dests s failed next dests
    r ← call answer (write_socket s (dest_message h.htonl dest))
    (if r == message_size then rest else failed)

  module _ (fuel num_qp : ℕ) where
    unfoldable pub client_out : ℕ → Answers Draft → P (Answers Draft)
    client_out sockfd r = do call_ answer (release socket sockfd); pure r

    -- All messages have been read.
    unfoldable pub client_done : ℕ → ℕ → List Draft → P (Answers Draft)
    client_done sockfd rem_dest dests = do
      r ← call answer (write_socket sockfd done_message)
      (if r == 5
          then client_out sockfd (some (rem_dest, dests))
          else (call_ answer (release dest_memory rem_dest) >> client_out sockfd none))

    -- A failed read goes to `out` with what there is of the array.
    unfoldable pub client_read : List PingpongDest → ℕ → P (Answers Draft)
    client_read my_dests sockfd = do
      rem_dest ← call answer (acquire dest_memory)
      (if rem_dest == 0
          then client_out sockfd none
          else read_dests fuel sockfd client_scan
              (λ dests. client_out sockfd (some (rem_dest, dests))) (client_done sockfd rem_dest)
              num_qp (last_gid [] my_dests) [])

    unfoldable pub client_connected : List PingpongDest → ℕ → ℕ → ℕ → P (Answers Draft)
    client_connected my_dests name res sockfd = do
      call_ answer (release address_list res)
      call_ answer (release service name)
      (if sockfd == 0
          then pure none
          else write_dests sockfd (client_out sockfd none) (client_read my_dests sockfd) my_dests)

    unfoldable pub client_resolve : List PingpongDest → ℕ → P (Answers Draft)
    client_resolve my_dests name = do
      res ← call answer (acquire address_list)
      (if res == 0
          then (call_ answer (release service name) >> pure none)
          else (client_socket h h.addresses >>= λ sockfd.
              client_connected my_dests name res sockfd))

    unfoldable pub pp_client_exch_dest : List PingpongDest → P (Answers Draft)
    pp_client_exch_dest my_dests = do
      name ← call answer (acquire service)
      (if name == 0 then pure none else client_resolve my_dests name)

    unfoldable pub server_out : ℕ → Answers PingpongDest → P (Answers PingpongDest)
    server_out connfd r = do call_ answer (release connection connfd); pure r

    unfoldable pub server_drop : ℕ → ℕ → P (Answers PingpongDest)
    server_drop connfd rem_dest = do
      call_ answer (release dest_memory rem_dest)
      server_out connfd none

    unfoldable pub server_wait : ℕ → ℕ → List PingpongDest → P (Answers PingpongDest)
    server_wait connfd rem_dest dests = do
      n ← call answer (receive connfd message_size)
      (if not_positive n
          then server_drop connfd rem_dest
          else server_out connfd (some (rem_dest, dests)))

    unfoldable pub server_connect :
        SrqContext → Link → List PingpongDest → ℕ → ℕ → List PingpongDest → P (Answers PingpongDest)
    server_connect ctx link my_dests connfd rem_dest dests = do
      r ← pp_connect_ctx h.device ctx link.port link.mtu link.sl my_dests dests link.sgid_idx
      (if r == 0
          then write_dests connfd (server_drop connfd rem_dest) (server_wait connfd rem_dest dests)
              my_dests
          else server_drop connfd rem_dest)

    unfoldable pub server_read :
        SrqContext → Link → List PingpongDest → ℕ → P (Answers PingpongDest)
    server_read ctx link my_dests connfd = do
      rem_dest ← call answer (acquire dest_memory)
      (if rem_dest == 0
          then server_out connfd none
          else read_dests fuel connfd server_scan
              (λ dests. server_out connfd (some (rem_dest, dests)))
              (server_connect ctx link my_dests connfd rem_dest) num_qp tt [])

    unfoldable pub server_accept :
        SrqContext → Link → List PingpongDest → ℕ → P (Answers PingpongDest)
    server_accept ctx link my_dests sockfd = do
      call_ answer (listen_socket sockfd)
      connfd ← call answer (acquire connection)
      call_ answer (release socket sockfd)
      (if connfd == 0 then pure none else server_read ctx link my_dests connfd)

    unfoldable pub server_bound :
        SrqContext → Link → List PingpongDest → ℕ → ℕ → ℕ → P (Answers PingpongDest)
    server_bound ctx link my_dests name res sockfd = do
      call_ answer (release address_list res)
      call_ answer (release service name)
      (if sockfd == 0 then pure none else server_accept ctx link my_dests sockfd)

    unfoldable pub server_resolve :
        SrqContext → Link → List PingpongDest → ℕ → P (Answers PingpongDest)
    server_resolve ctx link my_dests name = do
      res ← call answer (acquire address_list)
      (if res == 0
          then (call_ answer (release service name) >> pure none)
          else (server_socket h h.addresses >>= λ sockfd.
              server_bound ctx link my_dests name res sockfd))

    unfoldable pub pp_server_exch_dest :
        SrqContext → Link → List PingpongDest → P (Answers PingpongDest)
    pp_server_exch_dest ctx link my_dests = do
      name ← call answer (acquire service)
      (if name == 0 then pure none else server_resolve ctx link my_dests name)
