-- ===== src/FileTransfer/Client.antt =====
-- examples/the-geek-in-the-corner/03_file-transfer/rdma-file-transfer/client.c.
pub mod Turns
use cs594_dcn_f.Prelude.{
  ℕ, suc, ◌+◌, ◌%◌, ◌^◌, true, none, some, List, [], ◌∷◌, ◌++◌, length, take, drop, ltb, ◌==◌,
  if◌then◌else◌,
}
use cs594_dcn_f.Effects.{
  M, exit_failure, fault, ◌>>=◌, ◌>>◌, skip, halt, pure, call, call_, test_nz, test_z,
}
use cs594_dcn_f.Rdma.{
  Verbs, Call, Wc, Event, SendWr, wr_rdma_write_with_imm, no_access, access_local_write, memalign,
  reg_mr, post_send, post_recv, open_file, read_file, close_file, region, message_struct, minus_one,
  Memory, load, store, id_context,
}
use cs594_dcn_f.FileTransfer.Common.{Callbacks, rc_init, rc_get_pd, rc_disconnect, rc_client_loop}
use cs594_dcn_f.FileTransfer.Messages.{
  buffer_size, Message, MessageId, msg_invalid, msg_mr, msg_ready, msg_done, msg_other,
}

-- `struct client_context`. `buffer` and `msg` are addresses; `contents` is what the buffer holds,
-- `message` what `*msg` holds, and `unread` the bytes behind the offset of `fd`.
pub record ClientContext : Type 0 where
  pub buffer : ℕ
  pub buffer_mr : ℕ
  pub msg : ℕ
  pub msg_mr : ℕ
  pub peer_addr : ℕ
  pub peer_rkey : ℕ
  pub fd : ℕ
  pub file_name : List ℕ
  pub contents : List ℕ
  pub message : Message
  pub unread : List ℕ

abbrev pub ClientMemory : Type 0
ClientMemory = Memory ClientContext

module _ (v : Verbs) where
  open v use {answer}

  -- `(struct client_context *)id->context`, and its address.
  abbrev pub client_context : ℕ → M ClientMemory Call (ℕ × ClientContext)
  client_context id = do p ← id_context id; ctx ← load p; pure (p, ctx)

  -- The request of `write_remote`: no list of segments for a length of 0.
  unfoldable pub write_request : ℕ → ClientContext → ℕ → SendWr
  write_request id ctx len = record {
    wr_id = id;
    opcode = wr_rdma_write_with_imm;
    sg_list =
        if len == 0
        then none
        else some (record { addr = ctx.buffer; length = len; lkey = v.mr_lkey ctx.buffer_mr });
    signaled = true;
    imm_data = v.htonl len;
    remote_addr = ctx.peer_addr;
    rkey = ctx.peer_rkey;
  }

  -- `len` is a `uint32_t`: a longer value is cut.
  unfoldable pub write_remote : ℕ → ℕ → M ClientMemory Call (Unit {0})
  write_remote id len = do
    (p, ctx) ← client_context id
    test_nz answer (post_send (v.qp_of id) (write_request id ctx (len % 2 ^ 32)))

  unfoldable pub post_receive : ℕ → M ClientMemory Call (Unit {0})
  post_receive id = do
    (p, ctx) ← client_context id
    test_nz answer (
        post_recv (v.qp_of id) (record {
          wr_id = id;
          sg_list =
              some (record {
                addr = ctx.msg;
                length = v.size_of_message;
                lkey = v.mr_lkey ctx.msg_mr;
              });
        }))

  -- `read` puts the next bytes of the file at the start of the buffer.
  unfoldable pub send_next_chunk : ℕ → M ClientMemory Call (Unit {0})
  send_next_chunk id = do
    (p, ctx) ← client_context id
    size ← call (λ log c. v.read_size log ctx.unread buffer_size) (read_file ctx.fd buffer_size)
    (if size == minus_one then halt exit_failure else skip)
    store p (record ctx {
      contents = take size ctx.unread ++ drop size ctx.contents;
      unread = drop size ctx.unread;
    })
    write_remote id size

  -- `strcpy` of a name that does not fit the buffer is a fault.
  unfoldable pub send_file_name : ℕ → M ClientMemory Call (Unit {0})
  send_file_name id = do
    (p, ctx) ← client_context id
    (if ltb (length ctx.file_name) buffer_size then skip else halt fault)
    store p (record ctx {
      contents = ctx.file_name ++ (0 ∷ drop (suc (length ctx.file_name)) ctx.contents);
    })
    write_remote id (length ctx.file_name + 1)

  unfoldable pub on_pre_conn : ℕ → M ClientMemory Call (Unit {0})
  on_pre_conn id = do
    (p, ctx) ← client_context id
    buffer ← call answer (memalign (region buffer_size))
    pd ← rc_get_pd v
    buffer_mr ← test_z answer (reg_mr pd buffer buffer_size no_access)
    msg ← call answer (memalign message_struct)
    pd' ← rc_get_pd v
    message_mr ← test_z answer (reg_mr pd' msg v.size_of_message access_local_write)
    store p (record ctx { buffer = buffer; buffer_mr = buffer_mr; msg = msg; msg_mr = message_mr })
    post_receive id

  -- The tests on `ctx->msg->id`.
  unfoldable pub on_message : ℕ → ℕ → ClientContext → MessageId → M ClientMemory Call (Unit {0})
  on_message id p ctx msg_mr = do
    store p (record ctx { peer_addr = ctx.message.addr; peer_rkey = ctx.message.rkey })
    send_file_name id
    post_receive id
  on_message id p ctx msg_ready = do send_next_chunk id; post_receive id
  on_message id p ctx msg_done = rc_disconnect v id
  on_message id p ctx msg_invalid = post_receive id
  on_message id p ctx (msg_other n) = post_receive id

  unfoldable pub on_completion : Wc → M ClientMemory Call (Unit {0})
  on_completion wc = do
    (p, ctx) ← client_context wc.wr_id
    (if v.recv_bit wc.opcode then on_message wc.wr_id p ctx ctx.message.id else skip)

  abbrev pub callbacks : Callbacks ClientContext
  callbacks = rc_init (some on_pre_conn) none (some on_completion) none

  -- `main` after the check of `argc`: `path` is `argv[2]`, `base_name` its base name, `bytes` what the
  -- file holds, and `context` the address of the local variable `ctx`. The answer is the exit status.
  unfoldable pub main : ℕ → List ℕ → List ℕ → List ℕ → List Event → M ClientMemory Call ℕ
  main context path base_name bytes events = do
    fd ← call answer (open_file path)
    (if fd == minus_one then pure 1 else do
      store context (record {
        buffer = 0;
        buffer_mr = 0;
        msg = 0;
        msg_mr = 0;
        peer_addr = 0;
        peer_rkey = 0;
        fd = fd;
        file_name = base_name;
        contents = [];
        message = record { id = msg_invalid; addr = 0; rkey = 0 };
        unread = bytes;
      })
      rc_client_loop v callbacks context events
      call_ answer (close_file fd)
      pure 0)
