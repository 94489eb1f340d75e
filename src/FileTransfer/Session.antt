-- ===== src/FileTransfer/Session.antt =====
-- One transfer between client.c and server.c of 03_file-transfer: the handlers of the two programs
-- in turn, each woken by a completion for a request that the other has posted and that a receive which
-- it has posted itself takes.
pub mod Laws
pub mod Rounds
pub mod ServerSide
pub mod ClientSide
pub mod Transfer
use cs594_dcn_f.Prelude.{
  ℕ, zero, suc, Bool, true, false, Option, none, some, List, [], ◌∷◌, take, ◌==◌, leb, ◌&&◌,
  if◌then◌else◌,
}
use cs594_dcn_f.Effects.{
  M, World, Outcome, done, stop, Log, fault, ◌>>=◌, ◌>>◌, skip, halt, deref, pure,
}
use cs594_dcn_f.Rdma.{
  Verbs, Call, SendWr, Wc, wc_recv, wc_recv_rdma_with_imm, post_send, post_recv, load, store,
  id_context,
}
use cs594_dcn_f.FileTransfer.Messages.{Message, MessageId, msg_done}
use cs594_dcn_f.FileTransfer.Client
use cs594_dcn_f.FileTransfer.Client.{ClientContext, ClientMemory}
use cs594_dcn_f.FileTransfer.Server
use cs594_dcn_f.FileTransfer.Server.{ConnContext, ServerMemory}

-- The newest request that was handed to `ibv_post_send`.
abbrev pub sent : Log Call → Option SendWr
sent [] = none
sent ((post_send qp wr, r) ∷ log) = some wr
sent (_ ∷ log) = sent log

-- How many requests, and how many receives, have been posted.
abbrev pub sends : Log Call → ℕ
sends [] = 0
sends ((post_send qp wr, r) ∷ log) = suc (sends log)
sends (_ ∷ log) = sends log

abbrev pub receives : Log Call → ℕ
receives [] = 0
receives ((post_recv qp wr, r) ∷ log) = suc (receives log)
receives (_ ∷ log) = receives log

-- Of a side whose calls are `log`, all but one of `t` requests have reached the peer, whose calls are
-- `peer`: the request number `t` has been posted and is the last, and the peer has posted a receive for it.
abbrev pub arrives : ℕ → Log Call → Log Call → Bool
arrives t log peer = (sends log == t) && leb t (receives peer)

-- The request is for the message of the context.
abbrev pub is_of_message : ConnContext → Option SendWr → Bool
is_of_message ctx none = false
is_of_message ctx (some wr) = elim wr.sg_list [ none ↦ false | some sge ↦ sge.addr == ctx.msg ]

-- The server has posted its message number `t`, as its last request, and the client a receive for it.
abbrev pub answers : ℕ → ConnContext → Log Call → Log Call → Bool
answers t ctx log peer = arrives t log peer && is_of_message ctx (sent log)

-- The bytes that a request of the client gathers from its buffer.
abbrev pub gather : ClientContext → SendWr → List ℕ
gather ctx wr = elim wr.sg_list [ none ↦ [] | some sge ↦ take sge.length ctx.contents ]

-- What the two programs and the network between them are given: the libraries of each side, the
-- identifier of the connection on each side, and `deliver`, which says what a buffer holds after
-- bytes have been written to its start by the peer.
pub record Peers : Type 0 where
  pub client_verbs : Verbs
  pub server_verbs : Verbs
  pub client_id : ℕ
  pub server_id : ℕ
  pub deliver : List ℕ → List ℕ → List ℕ

module _ (n : Peers) where
  open n use {client_verbs, server_verbs, client_id, server_id, deliver}

  -- The write of the client reaches the buffer of the server, whose completion handler runs.
  unfoldable pub server_turn : List ℕ → SendWr → M ServerMemory Call (Unit {0})
  server_turn bytes wr = do
    p ← id_context server_id
    ctx ← load p
    store p (record ctx { contents = deliver ctx.contents bytes })
    Server.on_completion server_verbs (record {
      wr_id = server_id;
      success = true;
      opcode = wc_recv_rdma_with_imm;
      imm_data = wr.imm_data;
    })

  -- The message of the server reaches `*ctx->msg`, and the completion handler of the client runs.
  unfoldable pub client_turn : Message → M ClientMemory Call (Unit {0})
  client_turn message = do
    p ← id_context client_id
    ctx ← load p
    store p (record ctx { message = message })
    Client.on_completion client_verbs
        (record { wr_id = client_id; success = true; opcode = wc_recv; imm_data = 0 })

pub data Progress : Type 0 where
  finished running : World ClientMemory Call → World ServerMemory Call → Progress
  broken : Progress

abbrev pub is_done : MessageId → Bool
is_done msg_done = true
is_done _ = false

module _ (n : Peers) where
  open n use {client_id, server_id}

  abbrev pub client_at : World ClientMemory Call → Option ClientContext
  client_at c = c.state.heap (c.state.context_of client_id)

  abbrev pub server_at : World ServerMemory Call → Option ConnContext
  server_at s = s.state.heap (s.state.context_of server_id)

  -- A turn of the server and one of the client, from a write that the client has posted: the client
  -- has posted as many writes as it has had messages. The client's turn follows if the server has
  -- posted one more message in its own.
  unfoldable pub round : World ClientMemory Call → World ServerMemory Call → Progress
  round c s = elim (client_at c) [
    | none ↦ broken
    | some ctx ↦ elim (sent c.log) [
      | none ↦ broken
      | some wr ↦ elim (arrives (sends s.log) c.log s.log) [
        | false ↦ broken
        | true ↦ elim (server_turn n (gather ctx wr) wr s) [
          | stop r s' ↦ broken
          | done _ s' ↦ elim (server_at s') [
            | none ↦ broken
            | some sctx ↦ elim (answers (suc (sends s.log)) sctx s'.log c.log) [
              | false ↦ broken
              | true ↦ elim (client_turn n sctx.message c) [
                | stop r c' ↦ broken
                | done _ c' ↦ if is_done sctx.message.id then finished c' s' else running c' s'
              ]
            ]
          ]
        ]
      ]
    ]
  ]

  -- Rounds until the server has answered MSG_DONE, at most as many as the first argument says.
  unfoldable pub exchange : ℕ → World ClientMemory Call → World ServerMemory Call → Progress
  exchange zero c s = running c s
  exchange (suc k) c s = elim (round c s) [
    | running c' s' ↦ exchange k c' s'
    | finished c' s' ↦ finished c' s'
    | broken ↦ broken
  ]

  -- The whole session, from the established connection: the server sends MSG_MR, and the rounds follow.
  unfoldable pub transfer : ℕ → World ClientMemory Call → World ServerMemory Call → Progress
  transfer k c s = elim (Server.on_connection n.server_verbs server_id s) [
    | stop r s' ↦ broken
    | done _ s' ↦ elim (server_at s') [
      | none ↦ broken
      | some sctx ↦ elim (answers (suc (sends s.log)) sctx s'.log c.log) [
        | false ↦ broken
        | true ↦ elim (client_turn n sctx.message c) [
          | stop r c' ↦ broken
          | done _ c' ↦ exchange k c' s'
        ]
      ]
    ]
  ]
