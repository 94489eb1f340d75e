-- ===== src/FileTransfer/Session/ServerSide.antt =====
-- What a turn of the server leaves in its context, in each branch of its completion handler.
use cs594_dcn_f.Prelude.{
  ==_refl, ℕ, suc, ◌-◌, ◌≤◌, ◌<◌, ◌≡◌, ◌≢◌, refl, ap, ◌∙◌, true, false, some, List, [], ◌∷◌, ◌++◌,
  length, take, arith,
}
use cs594_dcn_f.Effects.{World, done}
use cs594_dcn_f.Rdma.{Call, SendWr, place, update_self, write_file, open_file}
use cs594_dcn_f.FileTransfer.Messages.{msg_ready, msg_done, buffer_size}
use cs594_dcn_f.FileTransfer.Server.{
  ConnContext, ServerMemory, has_name, c_string, save_chunk, open_named,
}
use cs594_dcn_f.FileTransfer.Server.Turns.{
  ack, kept_size, finish_lem, save_chunk_lem, open_named_lem, on_completion-finish,
  on_completion-save_chunk, on_completion-open_named,
}
use cs594_dcn_f.FileTransfer.Session.{
  Peers, sent, is_of_message, sends, receives, server_turn, server_at,
}
use cs594_dcn_f.FileTransfer.Session.Laws.{IsReliable}
use cs594_dcn_f.FileTransfer.Session.Rounds.{write_wc, arrived, server_turn_lem}

module _ (n : Peers) (good : IsReliable n) (s : World ServerMemory Call) (ctx : ConnContext)
    (bound : s.state.context_of n.server_id ≢ 0) (here : server_at n s ≡ some ctx) (bytes : List ℕ)
    (wr : SendWr) (size : n.server_verbs.ntohl wr.imm_data ≡ length bytes) where
  abbrev p : ℕ
  p = s.state.context_of n.server_id

  abbrev delivered : ConnContext
  delivered = record ctx { contents = n.deliver ctx.contents bytes }

  -- A turn that ends with `context` in place, one request posted, and `posted` receives in all.
  abbrev pub Serves : ℕ → ConnContext → Type 0
  Serves posted context =
      (s' : World ServerMemory Call) × (server_turn n bytes wr s ≡ done tt s')
      × (s'.state.context_of n.server_id ≢ 0)
      × (server_at n s' ≡ some context)
      × (sends s'.log ≡ suc (sends s.log))
      × (is_of_message context (sent s'.log) ≡ true)
      × (receives s'.log ≡ posted)

  pub serve_finish : bytes ≡ [] → Serves (receives s.log) (ack delivered msg_done)
  serve_finish nothing =
      let zero_size : n.server_verbs.ntohl wr.imm_data ≡ 0 = ground arith in
      (
        _,
        server_turn_lem n s ctx bytes wr bound here
            ∙ on_completion-finish n.server_verbs (write_wc n wr.imm_data) p (arrived n s ctx bytes)
                delivered refl refl bound (update_self s.state.heap p (some delivered)) zero_size
            ∙ finish_lem n.server_verbs good.server_posts n.server_id p (arrived n s ctx bytes)
                delivered refl bound,
        bound,
        update_self (arrived n s ctx bytes).state.heap p (some (ack delivered msg_done)),
        refl,
        ==_refl ctx.msg,
        refl,
      )

  abbrev saved : ConnContext
  saved = record delivered { written = ctx.written ++ take (length bytes) delivered.contents }

  pub serve_chunk :
      (fd : ℕ)
      → ctx.fd ≡ some fd
      → has_name ctx.file_name ≡ true
      → 0 < length bytes
      → length bytes ≤ buffer_size
      → Serves
          (suc (receives s.log))
          (ack (record delivered { written = ctx.written ++ bytes }) msg_ready)
  serve_chunk fd opened titled some_bytes fits =
      let got : take (length bytes) delivered.contents ≡ bytes =
        good.delivered ctx.contents bytes fits in
      let some_size : n.server_verbs.ntohl wr.imm_data ≢ 0 = ground arith in
      let wrote : n.server_verbs.answer s.log
            (write_file fd (take (length bytes) delivered.contents))
          ≡ length bytes =
        rw got (good.server_files.writes s.log fd bytes) in
      (
        _,
        server_turn_lem n s ctx bytes wr bound here
            ∙ on_completion-save_chunk n.server_verbs (write_wc n wr.imm_data) p
                (arrived n s ctx bytes) delivered refl refl bound
                (update_self s.state.heap p (some delivered)) some_size titled
            ∙ ap (λ z. save_chunk n.server_verbs n.server_id p delivered z (arrived n s ctx bytes))
                size
            ∙ (save_chunk_lem n.server_verbs good.server_posts n.server_id p (arrived n s ctx bytes)
                delivered fd (length bytes) refl bound opened wrote),
        bound,
        update_self (place p (arrived n s ctx bytes) saved).state.heap p
              (some (ack saved msg_ready))
            ∙ ap
                (λ (b : List ℕ).
                  some (ack (record delivered { written = ctx.written ++ b }) msg_ready))
                got,
        refl,
        ==_refl ctx.msg,
        refl,
      )

  -- The context once a file is open under the first `size - 1` bytes of the buffer.
  abbrev pub named : ℕ → ℕ → ConnContext
  named fd size = record delivered {
    file_name = take (size - 1) delivered.contents ++ 0 ∷ [];
    fd = some fd;
  }

  pub serve_name :
      has_name ctx.file_name ≡ false
      → 0 < length bytes
      → length bytes ≤ 256
      → (fd : ℕ) × Serves (suc (receives s.log)) (ack (named fd (length bytes)) msg_ready)
  serve_name unnamed some_bytes fits =
      let some_size : n.server_verbs.ntohl wr.imm_data ≢ 0 = ground arith in
      let kept : kept_size (length bytes) ≡ length bytes = ground arith in
      let fd : ℕ =
        n.server_verbs.answer s.log (
          open_file
            (c_string (take (kept_size (length bytes) - 1) delivered.contents ++ 0 ∷ []))) in
      (
        fd,
        (
          _,
          server_turn_lem n s ctx bytes wr bound here
              ∙ on_completion-open_named n.server_verbs (write_wc n wr.imm_data) p
                  (arrived n s ctx bytes) delivered refl refl bound
                  (update_self s.state.heap p (some delivered)) some_size unnamed
              ∙ ap
                  (λ z. open_named n.server_verbs n.server_id p delivered z (arrived n s ctx bytes))
                  size
              ∙ (open_named_lem n.server_verbs good.server_posts n.server_id p
                  (arrived n s ctx bytes) delivered (length bytes) refl bound
                  (good.server_files.opens s.log
                    (c_string (take (kept_size (length bytes) - 1) delivered.contents ++ 0 ∷ [])))),
          bound,
          update_self
                (place p (arrived n s ctx bytes) (named fd (kept_size (length bytes)))).state.heap p
                (some (ack (named fd (kept_size (length bytes))) msg_ready))
              ∙ ap (λ z. some (ack (named fd z) msg_ready)) kept,
          refl,
          ==_refl ctx.msg,
          refl,
        ),
      )
