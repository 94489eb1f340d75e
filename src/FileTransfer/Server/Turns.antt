-- ===== src/FileTransfer/Server/Turns.antt =====
-- What the branches of the server's completion handler do where no call fails.
use cs594_dcn_f.Prelude.{
  ℕ, ◌-◌, ◌≡◌, ◌≢◌, true, false, none, some, List, [], ◌∷◌, ◌++◌, take, arith, ltb, if◌then◌else◌,
  ne→==,
}
use cs594_dcn_f.Effects.{World, done, ◌>>=◌}
use cs594_dcn_f.Rdma.{
  Verbs, Call, SendWr, RecvWr, Wc, wc_recv_rdma_with_imm, wr_send, post_send, post_recv, write_file,
  open_file, minus_one, Posts, update, update_self, store, place,
}
use cs594_dcn_f.FileTransfer.Messages.{MessageId, msg_mr, msg_ready, msg_done}
use cs594_dcn_f.FileTransfer.Server.{
  ConnContext, ServerMemory, has_name, max_file_name, c_string, send_message, post_receive,
  save_chunk, finish, open_named, on_completion, on_connection,
}

-- The context with another message identifier.
abbrev pub ack : ConnContext → MessageId → ConnContext
ack ctx m = record ctx { message = record ctx.message { id = m } }

-- How many bytes of a file name are copied, its NUL counted.
abbrev pub kept_size : ℕ → ℕ
kept_size size = if ltb max_file_name size then max_file_name else size

-- The context with MSG_MR in its message: the buffer's address and key.
abbrev pub offer : Verbs → ConnContext → ConnContext
offer v ctx = record ctx {
  message = record { id = msg_mr; addr = v.mr_addr ctx.buffer_mr; rkey = v.mr_rkey ctx.buffer_mr };
}

module _ (v : Verbs) (good : Posts v) (id p : ℕ) where
  -- The request of `send_message`.
  abbrev pub reply : ConnContext → SendWr
  reply ctx = record {
    wr_id = id;
    opcode = wr_send;
    sg_list =
        some (record { addr = ctx.msg; length = v.size_of_message; lkey = v.mr_lkey ctx.msg_mr });
    signaled = true;
    imm_data = 0;
    remote_addr = 0;
    rkey = 0;
  }

  send_message_lem :
      (w : World ServerMemory Call) (ctx : ConnContext)
      → w.state.context_of id ≡ p
      → p ≢ 0
      → w.state.heap p ≡ some ctx
      → send_message v id w
        ≡ done tt (record w { log = (post_send (v.qp_of id) (reply ctx), 0) ∷ w.log })
  unfolding send_message
  send_message_lem w ctx bound pos here = ground (arith, good.sends w.log (v.qp_of id) (reply ctx))

  post_receive_lem :
      (w : World ServerMemory Call)
      → post_receive v id w
        ≡ done tt (record w {
          log = (post_recv (v.qp_of id) (record { wr_id = id; sg_list = none }), 0) ∷ w.log;
        })
  unfolding post_receive
  post_receive_lem w =
      ground (arith, good.receives w.log (v.qp_of id) (record { wr_id = id; sg_list = none }))

  pub on_connection_lem :
      (w : World ServerMemory Call) (ctx : ConnContext)
      → w.state.context_of id ≡ p
      → p ≢ 0
      → w.state.heap p ≡ some ctx
      → on_connection v id w
        ≡ done tt (record {
          state = (place p w (offer v ctx)).state;
          log = (post_send (v.qp_of id) (reply ctx), 0) ∷ w.log;
        })
  unfolding on_connection
  on_connection_lem w ctx bound pos here = ground (
    arith,
    send_message_lem (place p w (offer v ctx)) (offer v ctx),
    update_self w.state.heap p (some (offer v ctx)),
  )

  pub finish_lem :
      (w : World ServerMemory Call) (ctx : ConnContext)
      → w.state.context_of id ≡ p
      → p ≢ 0
      → finish v id p ctx w
        ≡ done tt (record {
          state = record w.state { heap = update w.state.heap p (some (ack ctx msg_done)) };
          log = (post_send (v.qp_of id) (reply ctx), 0) ∷ w.log;
        })
  unfolding finish
  finish_lem w ctx bound pos =
      send_message_lem
        (record w {
          state = record w.state { heap = update w.state.heap p (some (ack ctx msg_done)) };
        })
        (ack ctx msg_done) bound pos (update_self w.state.heap p (some (ack ctx msg_done)))

  abbrev pub receive : RecvWr
  receive = record { wr_id = id; sg_list = none }

  -- The rest of a branch, once its bytes are in place.
  ready_lem :
      (w : World ServerMemory Call) (ctx : ConnContext)
      → w.state.context_of id ≡ p
      → p ≢ 0
      → (post_receive v id >>= λ _. store p (ack ctx msg_ready) >>= λ _. send_message v id)
          (place p w ctx)
        ≡ done tt (record {
          state = (place p (place p w ctx) (ack ctx msg_ready)).state;
          log =
              (post_send (v.qp_of id) (reply ctx), 0) ∷ (post_recv (v.qp_of id) receive, 0) ∷ w.log;
        })
  ready_lem w ctx bound pos =
      rw (post_receive_lem (place p w ctx), ◌>>=◌)
        (send_message_lem
          (record {
            state = (place p (place p w ctx) (ack ctx msg_ready)).state;
            log = (post_recv (v.qp_of id) receive, 0) ∷ w.log;
          })
          (ack ctx msg_ready) bound pos
          (update_self (place p w ctx).state.heap p (some (ack ctx msg_ready))))

  pub save_chunk_lem :
      (w : World ServerMemory Call) (ctx : ConnContext) (fd size : ℕ)
      → w.state.context_of id ≡ p
      → p ≢ 0
      → ctx.fd ≡ some fd
      → v.answer w.log (write_file fd (take size ctx.contents)) ≡ size
      → let ctx' = record ctx { written = ctx.written ++ take size ctx.contents } in
        save_chunk v id p ctx size w
        ≡ done tt (record {
          state = (place p (place p w ctx') (ack ctx' msg_ready)).state;
          log =
              (post_send (v.qp_of id) (reply ctx'), 0)
              ∷ (post_recv (v.qp_of id) receive, 0)
              ∷ (write_file fd (take size ctx.contents), size)
              ∷ w.log;
        })
  unfolding save_chunk
  save_chunk_lem w ctx fd size bound pos opened wrote = ground (
    arith,
    ready_lem (record w { log = (write_file fd (take size ctx.contents), size) ∷ w.log })
        (record ctx { written = ctx.written ++ take size ctx.contents }),
  )

  pub open_named_lem :
      (w : World ServerMemory Call) (ctx : ConnContext) (size : ℕ)
      → w.state.context_of id ≡ p
      → p ≢ 0
      → let name = take (kept_size size - 1) ctx.contents ++ 0 ∷ [] in
        let fd = v.answer w.log (open_file (c_string name)) in
        fd ≢ minus_one
        → let ctx' = record ctx { file_name = name; fd = some fd } in
          open_named v id p ctx size w
          ≡ done tt (record {
            state = (place p (place p w ctx') (ack ctx' msg_ready)).state;
            log =
                (post_send (v.qp_of id) (reply ctx'), 0)
                ∷ (post_recv (v.qp_of id) receive, 0)
                ∷ (open_file (c_string name), fd)
                ∷ w.log;
          })
  unfolding open_named
  open_named_lem w ctx size bound pos opens =
      let name : List ℕ = take (kept_size size - 1) ctx.contents ++ 0 ∷ [] in
      let fd : ℕ = v.answer w.log (open_file (c_string name)) in
      rw (ne→== fd minus_one opens) (
        ready_lem (record w { log = (open_file (c_string name), fd) ∷ w.log })
          (record ctx { file_name = name; fd = some fd }) bound pos)

module _ (v : Verbs) (wc : Wc) (p : ℕ) (w : World ServerMemory Call) (ctx : ConnContext)
    (opcode : wc.opcode ≡ wc_recv_rdma_with_imm) (bound : w.state.context_of wc.wr_id ≡ p)
    (pos : p ≢ 0) (here : w.state.heap p ≡ some ctx) where
  pub on_completion-finish :
      v.ntohl wc.imm_data ≡ 0 → on_completion v wc w ≡ finish v wc.wr_id p ctx w
  unfolding on_completion
  on_completion-finish zero_size = ground arith

  pub on_completion-save_chunk :
      v.ntohl wc.imm_data ≢ 0
      → has_name ctx.file_name ≡ true
      → on_completion v wc w ≡ save_chunk v wc.wr_id p ctx (v.ntohl wc.imm_data) w
  unfolding on_completion
  on_completion-save_chunk some_size named = ground arith

  pub on_completion-open_named :
      v.ntohl wc.imm_data ≢ 0
      → has_name ctx.file_name ≡ false
      → on_completion v wc w ≡ open_named v wc.wr_id p ctx (v.ntohl wc.imm_data) w
  unfolding on_completion
  on_completion-open_named some_size unnamed = ground arith
