-- ===== src/FileTransfer/Client/Turns.antt =====
-- What the client's handlers of client.c do where no call fails.
use cs594_dcn_f.Prelude.{
  ℕ, suc, ◌+◌, ◌%◌, ◌^◌, ◌≤◌, ◌<◌, ◌≡◌, ◌≢◌, refl, true, some, ◌∷◌, ◌++◌, length, take, drop, arith,
}
use cs594_dcn_f.Effects.{World, done, ◌>>=◌}
use cs594_dcn_f.Rdma.{
  Verbs, Call, RecvWr, Wc, post_send, post_recv, read_file, disconnect, Posts, update_self, place,
}
use cs594_dcn_f.FileTransfer.Common.{rc_disconnect}
use cs594_dcn_f.FileTransfer.Messages.{msg_mr, msg_ready, msg_done, buffer_size}
use cs594_dcn_f.FileTransfer.Client.{
  ClientContext, ClientMemory, write_request, write_remote, post_receive, send_next_chunk,
  send_file_name, on_message, on_completion,
}

-- The context after `peer_addr` and `peer_rkey` are set, and after the name is copied.
abbrev pub with_peer : ClientContext → ClientContext
with_peer ctx = record ctx { peer_addr = ctx.message.addr; peer_rkey = ctx.message.rkey }

abbrev pub with_name : ClientContext → ClientContext
with_name ctx = record ctx {
  contents = ctx.file_name ++ (0 ∷ drop (suc (length ctx.file_name)) ctx.contents);
}

module _ (v : Verbs) (good : Posts v) (id p : ℕ) where
  abbrev pub receive : ClientContext → RecvWr
  receive ctx = record {
    wr_id = id;
    sg_list =
        some (record { addr = ctx.msg; length = v.size_of_message; lkey = v.mr_lkey ctx.msg_mr });
  }

  write_remote_lem :
      (w : World ClientMemory Call) (ctx : ClientContext) (len : ℕ)
      → w.state.context_of id ≡ p
      → p ≢ 0
      → w.state.heap p ≡ some ctx
      → len < 2 ^ 32
      → write_remote v id len w
        ≡ done tt
            (record w { log = (post_send (v.qp_of id) (write_request v id ctx len), 0) ∷ w.log })
  unfolding write_remote
  write_remote_lem w ctx len bound pos here fits =
      let e : len % 2 ^ 32 ≡ len = omega arith in
      rw e (ground (arith, good.sends w.log (v.qp_of id) (write_request v id ctx len)))

  post_receive_lem :
      (w : World ClientMemory Call) (ctx : ClientContext)
      → w.state.context_of id ≡ p
      → p ≢ 0
      → w.state.heap p ≡ some ctx
      → post_receive v id w
        ≡ done tt (record w { log = (post_recv (v.qp_of id) (receive ctx), 0) ∷ w.log })
  unfolding post_receive
  post_receive_lem w ctx bound pos here =
      ground (arith, good.receives w.log (v.qp_of id) (receive ctx))

  -- The end of both branches that send: the write, and a receive for the next message.
  abbrev pub posted : World ClientMemory Call → ClientContext → ℕ → World ClientMemory Call
  posted w ctx len = record {
    state = (place p w ctx).state;
    log =
        (post_recv (v.qp_of id) (receive ctx), 0)
        ∷ (post_send (v.qp_of id) (write_request v id ctx len), 0)
        ∷ w.log;
  }

  send_lem :
      (w : World ClientMemory Call) (ctx : ClientContext) (len : ℕ)
      → w.state.context_of id ≡ p
      → p ≢ 0
      → len < 2 ^ 32
      → (write_remote v id len >>= λ _. post_receive v id) (place p w ctx)
        ≡ done tt (posted w ctx len)
  send_lem w ctx len bound pos fits =
      rw
        (
          write_remote_lem (place p w ctx) ctx len bound pos (update_self w.state.heap p (some ctx))
              fits,
          ◌>>=◌,
        )
        (post_receive_lem
          (record {
            state = (place p w ctx).state;
            log = (post_send (v.qp_of id) (write_request v id ctx len), 0) ∷ w.log;
          })
          ctx bound pos (update_self w.state.heap p (some ctx)))

  pub on_ready_lem :
      (w : World ClientMemory Call) (ctx : ClientContext)
      → w.state.context_of id ≡ p
      → p ≢ 0
      → w.state.heap p ≡ some ctx
      → let size = v.read_size w.log ctx.unread buffer_size in
        size ≤ buffer_size
        → on_message v id p ctx msg_ready w
          ≡ done tt (
              posted
                (record w { log = (read_file ctx.fd buffer_size, size) ∷ w.log })
                (record ctx {
                  contents = take size ctx.unread ++ drop size ctx.contents;
                  unread = drop size ctx.unread;
                })
                size)
  unfolding on_message send_next_chunk
  on_ready_lem w ctx bound pos here fits = ground (
    arith,
    send_lem
        (record w {
          log = (read_file ctx.fd buffer_size, v.read_size w.log ctx.unread buffer_size) ∷ w.log;
        })
        (record ctx {
          contents =
              take (v.read_size w.log ctx.unread buffer_size) ctx.unread
              ++ drop (v.read_size w.log ctx.unread buffer_size) ctx.contents;
          unread = drop (v.read_size w.log ctx.unread buffer_size) ctx.unread;
        })
        (v.read_size w.log ctx.unread buffer_size),
  )

  send_file_name_lem :
      (w : World ClientMemory Call) (ctx : ClientContext)
      → w.state.context_of id ≡ p
      → p ≢ 0
      → length ctx.file_name < buffer_size
      → (send_file_name v id >>= λ _. post_receive v id) (place p w ctx)
        ≡ done tt (posted (place p w ctx) (with_name ctx) (length ctx.file_name + 1))
  unfolding send_file_name
  send_file_name_lem w ctx bound pos fits = ground (
    arith,
    update_self w.state.heap p (some ctx),
    send_lem (place p w ctx) (with_name ctx) (length ctx.file_name + 1),
  )

  pub on_mr_lem :
      (w : World ClientMemory Call) (ctx : ClientContext)
      → w.state.context_of id ≡ p
      → p ≢ 0
      → length ctx.file_name < buffer_size
      → on_message v id p ctx msg_mr w
        ≡ done tt (
            posted
              (place p w (with_peer ctx))
              (with_name (with_peer ctx))
              (length ctx.file_name + 1))
  unfolding on_message
  on_mr_lem w ctx bound pos fits = send_file_name_lem w (with_peer ctx) bound pos fits

  pub on_done_lem :
      (w : World ClientMemory Call) (ctx : ClientContext)
      → on_message v id p ctx msg_done w
        ≡ done tt (record w { log = (disconnect id, v.answer w.log (disconnect id)) ∷ w.log })
  unfolding on_message rc_disconnect
  on_done_lem w ctx = refl

module _ (v : Verbs) (wc : Wc) (p : ℕ) (w : World ClientMemory Call) (ctx : ClientContext)
    (received : v.recv_bit wc.opcode ≡ true) (bound : w.state.context_of wc.wr_id ≡ p) (pos : p ≢ 0)
    (here : w.state.heap p ≡ some ctx) where
  pub on_completion-on_message : on_completion v wc w ≡ on_message v wc.wr_id p ctx ctx.message.id w
  unfolding on_completion
  on_completion-on_message = ground arith
