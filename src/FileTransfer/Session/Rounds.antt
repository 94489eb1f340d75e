-- ===== src/FileTransfer/Session/Rounds.antt =====
-- One round of the session, while a chunk of the file is on its way and after the last.
use cs594_dcn_f.Prelude.{
  ◌&&◌, ap, ◌∙◌, ℕ, suc, ◌≤◌, ◌≡◌, ◌≢◌, refl, true, some, List, take, ◌==◌, if◌then◌else◌,
  Bool-cases, inl, inr, arith,
}
use cs594_dcn_f.Effects.{World, Log, done}
use cs594_dcn_f.Rdma.{Verbs, Call, SendWr, Wc, wc_recv, wc_recv_rdma_with_imm, place}
use cs594_dcn_f.FileTransfer.Messages.{Message}
use cs594_dcn_f.FileTransfer.Client
use cs594_dcn_f.FileTransfer.Client.{ClientContext, ClientMemory, write_request}
use cs594_dcn_f.FileTransfer.Server
use cs594_dcn_f.FileTransfer.Server.{ConnContext, ServerMemory, has_name, c_string}
use cs594_dcn_f.FileTransfer.Session.{
  Peers, running, finished, sent, gather, is_done, server_turn, client_turn, client_at, server_at,
  round, sends, receives, arrives, answers, is_of_message,
}

pub gather-write_request :
    (v : Verbs) (id : ℕ) (ctx : ClientContext) (len : ℕ)
    → gather ctx (write_request v id ctx len) ≡ take len ctx.contents
unfolding write_request
gather-write_request v id ctx len = elim (Bool-cases (len == 0)) [
  | inl none_left ↦ ground arith
  | inr some_left ↦ rw some_left
]

pub imm-write_request :
    (v : Verbs) (id : ℕ) (ctx : ClientContext) (len : ℕ)
    → (write_request v id ctx len).imm_data ≡ v.htonl len
unfolding write_request
imm-write_request v id ctx len = refl

pub arrives_lem :
    (t : ℕ) (log peer : Log Call) → sends log ≡ t → t ≤ receives peer → arrives t log peer ≡ true
arrives_lem t log peer posted room = ground arith

pub answers_lem :
    (t : ℕ) (ctx : ConnContext) (log peer : Log Call)
    → sends log ≡ t
    → is_of_message ctx (sent log) ≡ true
    → t ≤ receives peer
    → answers t ctx log peer ≡ true
answers_lem t ctx log peer posted mine room =
    ap (λ b. arrives t log peer && b) mine ∙ rw (arrives_lem t log peer posted room) refl

module _ (n : Peers) where
  -- The completion that a write with immediate data causes at the server, and a message at the client.
  abbrev pub write_wc : ℕ → Wc
  write_wc imm = record {
    wr_id = n.server_id;
    success = true;
    opcode = wc_recv_rdma_with_imm;
    imm_data = imm;
  }

  abbrev pub message_wc : Wc
  message_wc = record { wr_id = n.client_id; success = true; opcode = wc_recv; imm_data = 0 }

  abbrev pub arrived : World ServerMemory Call → ConnContext → List ℕ → World ServerMemory Call
  arrived s ctx bytes =
      place (s.state.context_of n.server_id) s
        (record ctx { contents = n.deliver ctx.contents bytes })

  abbrev pub told : World ClientMemory Call → ClientContext → Message → World ClientMemory Call
  told c ctx m = place (c.state.context_of n.client_id) c (record ctx { message = m })

  pub server_turn_lem :
      (s : World ServerMemory Call) (ctx : ConnContext) (bytes : List ℕ) (wr : SendWr)
      → s.state.context_of n.server_id ≢ 0
      → server_at n s ≡ some ctx
      → server_turn n bytes wr s
        ≡ Server.on_completion n.server_verbs (write_wc wr.imm_data) (arrived s ctx bytes)
  unfolding server_turn
  server_turn_lem s ctx bytes wr bound here = ground arith

  pub client_turn_lem :
      (c : World ClientMemory Call) (ctx : ClientContext) (m : Message)
      → c.state.context_of n.client_id ≢ 0
      → client_at n c ≡ some ctx
      → client_turn n m c ≡ Client.on_completion n.client_verbs message_wc (told c ctx m)
  unfolding client_turn
  client_turn_lem c ctx m bound here = ground arith

  pub round_lem :
      (c c' : World ClientMemory Call) (s s' : World ServerMemory Call) (cctx : ClientContext)
      (sctx : ConnContext) (wr : SendWr)
      → client_at n c ≡ some cctx
      → sent c.log ≡ some wr
      → arrives (sends s.log) c.log s.log ≡ true
      → server_turn n (gather cctx wr) wr s ≡ done tt s'
      → server_at n s' ≡ some sctx
      → answers (suc (sends s.log)) sctx s'.log c.log ≡ true
      → client_turn n sctx.message c ≡ done tt c'
      → round n c s ≡ (if is_done sctx.message.id then finished c' s' else running c' s')
  unfolding round
  round_lem c c' s s' cctx sctx wr here posted comes served there answered told_ =
      rw (here, round)
        (rw (posted, round)
          (rw (comes, round)
            (rw (served, round) (rw (there, round) (rw (answered, round) (rw (told_, round)))))))
