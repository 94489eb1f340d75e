-- ===== src/FileTransfer/Session/Transfer.antt =====
-- The whole session of 03_file-transfer, from the connection to MSG_DONE.
use cs594_dcn_f.Prelude.{
  ℕ, suc, ◌+◌, ◌≤◌, ◌<◌, ◌≡◌, ◌≢◌, true, some, List, [], ◌∷◌, ◌++◌, length, take,
}
use cs594_dcn_f.Effects.{World}
use cs594_dcn_f.Rdma.{Call}
use cs594_dcn_f.FileTransfer.Messages.{buffer_size}
use cs594_dcn_f.FileTransfer.Client.{ClientContext, ClientMemory, write_request}
use cs594_dcn_f.FileTransfer.Server.{ConnContext, ServerMemory, has_name, c_string}
use cs594_dcn_f.FileTransfer.Session.{
  Peers, Progress, finished, running, sent, sends, receives, client_at, server_at,
}
use cs594_dcn_f.FileTransfer.Session.Laws.{IsReliable}

-- The session has ended with `bytes` written to a file named `name`.
pub record Delivered (n : Peers) (name bytes : List ℕ) (r : Progress) : Type 0 where
  pub client : World ClientMemory Call
  pub server : World ServerMemory Call
  pub context : ConnContext
  pub ended : r ≡ finished client server
  pub there : server_at n server ≡ some context
  pub written : context.written ≡ bytes
  pub named : c_string context.file_name ≡ name

-- A chunk `payload` of the file is on its way, and the server has written what comes before it.
pub record InFlight (n : Peers) (name bytes payload : List ℕ) (fd : ℕ) (c : World ClientMemory Call)
    (s : World ServerMemory Call) (cctx : ClientContext) (sctx : ConnContext) : Type 0 where
  pub client_bound : c.state.context_of n.client_id ≢ 0
  pub client_here : client_at n c ≡ some cctx
  pub server_bound : s.state.context_of n.server_id ≢ 0
  pub server_here : server_at n s ≡ some sctx
  pub posted : sent c.log ≡ some (write_request n.client_verbs n.client_id cctx (length payload))
  pub in_step : sends c.log ≡ sends s.log
  pub server_takes : sends s.log ≤ receives s.log
  pub client_takes : suc (sends s.log) ≤ receives c.log
  pub held : take (length payload) cctx.contents ≡ payload
  pub fits : length payload ≤ buffer_size
  pub opened : sctx.fd ≡ some fd
  pub has : has_name sctx.file_name ≡ true
  pub named : c_string sctx.file_name ≡ name
  pub kept : sctx.written ++ (payload ++ cctx.unread) ≡ bytes
  pub at_end : payload ≡ [] → cctx.unread ≡ []

-- A file name as the protocol can carry it: no NUL, not empty, and with its NUL at most 256 bytes.
abbrev pub HasNoNul : List ℕ → Type 0
HasNoNul [] = Unit
HasNoNul (x ∷ xs) = (x ≢ 0) × HasNoNul xs

pub record IsFileName (name : List ℕ) : Type 0 where
  pub no_nul : HasNoNul name
  pub not_empty : 0 < length name
  pub short : length name < 256

-- Both ends as the connection leaves them, before anything has been sent: the server has
-- no file yet, neither side has posted a request, and both have posted a receive, which `on_pre_conn` does.
pub record IsConnected (n : Peers) (c : World ClientMemory Call) (s : World ServerMemory Call)
    (cctx : ClientContext) (sctx : ConnContext) : Type 0 where
  pub client_bound : c.state.context_of n.client_id ≢ 0
  pub client_here : client_at n c ≡ some cctx
  pub server_bound : s.state.context_of n.server_id ≢ 0
  pub server_here : server_at n s ≡ some sctx
  pub no_file : sctx.file_name ≡ 0 ∷ []
  pub nothing_written : sctx.written ≡ []
  pub client_silent : sends c.log ≡ 0
  pub server_silent : sends s.log ≡ 0
  pub client_ready : 1 ≤ receives c.log
  pub server_ready : 1 ≤ receives s.log

module _ (n : Peers) (good : IsReliable n) where
  -- A round after which the file goes on, with less of it left.
  record Advances (name bytes : List ℕ) (fd left : ℕ) (r : Progress) : Type 0 where
    client : World ClientMemory Call
    server : World ServerMemory Call
    payload : List ℕ
    cctx : ClientContext
    sctx : ConnContext
    going : r ≡ running client server
    flying : InFlight n name bytes payload fd client server cctx sctx
    less : length payload + length cctx.unread < left
