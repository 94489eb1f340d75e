-- ===== src/FileTransfer/Session/ClientSide.antt =====
-- What a turn of the client leaves in its context and on its way, for each message of the server.
use cs594_dcn_f.Prelude.{ℕ, suc, ◌+◌, ◌<◌, ◌≡◌, ◌≢◌, refl, ap, ◌∙◌, some, ◌++◌, length, take, drop}
use cs594_dcn_f.Effects.{World, done}
use cs594_dcn_f.Rdma.{Call, place, update_self}
use cs594_dcn_f.FileTransfer.Messages.{Message, msg_mr, msg_ready, msg_done, buffer_size}
use cs594_dcn_f.FileTransfer.Client.{ClientContext, ClientMemory, write_request, on_message}
use cs594_dcn_f.FileTransfer.Client.Turns.{
  with_peer, with_name, on_ready_lem, on_mr_lem, on_done_lem, on_completion-on_message,
}
use cs594_dcn_f.FileTransfer.Session.{Peers, sent, sends, receives, client_turn, client_at}
use cs594_dcn_f.FileTransfer.Session.Laws.{IsReliable}
use cs594_dcn_f.FileTransfer.Session.Rounds.{message_wc, told, client_turn_lem}

-- The context with message `m`, after `size` more bytes of the file have been read.
abbrev pub advanced : ClientContext → Message → ℕ → ClientContext
advanced ctx m size = record ctx {
  message = m;
  contents = take size ctx.unread ++ drop size ctx.contents;
  unread = drop size ctx.unread;
}

-- What the next `read` gives.
abbrev pub next_size : Peers → World ClientMemory Call → ClientContext → ℕ
next_size n c ctx = n.client_verbs.read_size c.log ctx.unread buffer_size

module _ (n : Peers) (good : IsReliable n) (c : World ClientMemory Call) (ctx : ClientContext)
    (bound : c.state.context_of n.client_id ≢ 0) (here : client_at n c ≡ some ctx)
    (m : Message) where
  abbrev p : ℕ
  p = c.state.context_of n.client_id

  abbrev informed : ClientContext
  informed = record ctx { message = m }

  -- A turn that ends with `context` in place and `len` bytes of its buffer on their way.
  abbrev pub Sends : ClientContext → ℕ → Type 0
  Sends context len =
      (c' : World ClientMemory Call) × (client_turn n m c ≡ done tt c')
      × (c'.state.context_of n.client_id ≢ 0)
      × (client_at n c' ≡ some context)
      × (sent c'.log ≡ some (write_request n.client_verbs n.client_id context len))
      × (sends c'.log ≡ suc (sends c.log))
      × (receives c'.log ≡ suc (receives c.log))

  handles :
      client_turn n m c ≡ on_message n.client_verbs n.client_id p informed m.id (told n c ctx m)
  handles =
      client_turn_lem n c ctx m bound here
      ∙ on_completion-on_message n.client_verbs (message_wc n) p (told n c ctx m) informed
          good.recv_bit refl bound (update_self c.state.heap p (some informed))

  pub send_chunk : m.id ≡ msg_ready → Sends (advanced ctx m (next_size n c ctx)) (next_size n c ctx)
  send_chunk ready = (
    _,
    handles
        ∙ ap (λ i. on_message n.client_verbs n.client_id p informed i (told n c ctx m)) ready
        ∙ on_ready_lem n.client_verbs good.client_posts n.client_id p (told n c ctx m) informed refl
            bound (update_self c.state.heap p (some informed))
            (good.client_reads.at_most c.log ctx.unread buffer_size),
    bound,
    update_self (told n c ctx m).state.heap p (some (advanced ctx m (next_size n c ctx))),
    refl,
    refl,
    refl,
  )

  pub send_name :
      m.id ≡ msg_mr
      → length ctx.file_name < buffer_size
      → Sends (with_name (with_peer informed)) (length ctx.file_name + 1)
  send_name mr fits = (
    _,
    handles
        ∙ ap (λ i. on_message n.client_verbs n.client_id p informed i (told n c ctx m)) mr
        ∙ on_mr_lem n.client_verbs good.client_posts n.client_id p (told n c ctx m) informed refl
            bound fits,
    bound,
    update_self (place p (told n c ctx m) (with_peer informed)).state.heap p
        (some (with_name (with_peer informed))),
    refl,
    refl,
    refl,
  )

  pub hang_up : m.id ≡ msg_done → (c' : World ClientMemory Call) × (client_turn n m c ≡ done tt c')
  hang_up finished = (
    _,
    handles
        ∙ ap (λ i. on_message n.client_verbs n.client_id p informed i (told n c ctx m)) finished
        ∙ on_done_lem n.client_verbs good.client_posts n.client_id p (told n c ctx m) informed,
  )
