-- ===== src/FileTransfer/Server.antt =====
-- examples/the-geek-in-the-corner/03_file-transfer/rdma-file-transfer/server.c.
pub mod Turns
use cs594_dcn_f.Prelude.{
  ℕ, ◌-◌, Bool, true, false, Option, none, some, List, [], ◌∷◌, ◌++◌, take, ltb, ◌==◌,
  if◌then◌else◌,
}
use cs594_dcn_f.Effects.{
  M, exit_failure, fault, ◌>>=◌, ◌>>◌, skip, halt, pure, call, call_, test_nz, test_z, deref,
}
use cs594_dcn_f.Rdma.{
  Verbs, Call, Wc, Event, WcOpcode, wc_recv_rdma_with_imm, wr_send, no_access, memalign, malloc,
  free, reg_mr, dereg_mr, post_send, post_recv, open_file, write_file, close_file, region,
  message_struct, connection_struct, minus_one, Memory, load, store, release, set_id_context,
  id_context,
}
use cs594_dcn_f.FileTransfer.Common.{Callbacks, rc_init, rc_get_pd, rc_server_loop}
use cs594_dcn_f.FileTransfer.Messages.{
  default_port, buffer_size, Message, msg_invalid, msg_mr, msg_ready, msg_done,
}

abbrev pub max_file_name : ℕ
max_file_name = 256

-- `struct conn_context`. `buffer` and `msg` are addresses; `contents` is what the buffer holds,
-- `message` what `*msg` holds, and `written` what has been written through `fd`. The array
-- `file_name` is given up to its last byte that is initialised; `fd` is `none` until it is assigned,
-- and its use before that a fault.
pub record ConnContext : Type 0 where
  pub buffer : ℕ
  pub buffer_mr : ℕ
  pub msg : ℕ
  pub msg_mr : ℕ
  pub fd : Option ℕ
  pub file_name : List ℕ
  pub contents : List ℕ
  pub message : Message
  pub written : List ℕ

abbrev pub ServerMemory : Type 0
ServerMemory = Memory ConnContext

-- The C string in an array: the bytes before the first NUL.
abbrev pub c_string : List ℕ → List ℕ
c_string [] = []
c_string (c ∷ cs) = if c == 0 then [] else (c ∷ c_string cs)

-- `if (ctx->file_name[0])`.
abbrev pub has_name : List ℕ → Bool
has_name [] = false
has_name (c ∷ cs) = if c == 0 then false else true

module _ (v : Verbs) where
  open v use {answer}

  -- `(struct conn_context *)id->context`, and its address.
  abbrev pub conn_context : ℕ → M ServerMemory Call (ℕ × ConnContext)
  conn_context id = do p ← id_context id; ctx ← load p; pure (p, ctx)

  unfoldable pub send_message : ℕ → M ServerMemory Call (Unit {0})
  send_message id = do
    (p, ctx) ← conn_context id
    test_nz answer (
        post_send (v.qp_of id) (record {
          wr_id = id;
          opcode = wr_send;
          sg_list =
              some (record {
                addr = ctx.msg;
                length = v.size_of_message;
                lkey = v.mr_lkey ctx.msg_mr;
              });
          signaled = true;
          imm_data = 0;
          remote_addr = 0;
          rkey = 0;
        }))

  unfoldable pub post_receive : ℕ → M ServerMemory Call (Unit {0})
  post_receive id = test_nz answer (post_recv (v.qp_of id) (record { wr_id = id; sg_list = none }))

  unfoldable pub on_pre_conn : ℕ → M ServerMemory Call (Unit {0})
  on_pre_conn id = do
    p ← call answer (malloc connection_struct)
    set_id_context id p
    (if p == 0 then halt fault else skip)
    buffer ← call answer (memalign (region buffer_size))
    pd ← rc_get_pd v
    buffer_mr ← test_z answer (
        reg_mr pd buffer buffer_size
          (record { local_write = true; remote_write = true; remote_read = false }))
    msg ← call answer (memalign message_struct)
    pd' ← rc_get_pd v
    message_mr ← test_z answer (reg_mr pd' msg v.size_of_message no_access)
    store p (record {
      buffer = buffer;
      buffer_mr = buffer_mr;
      msg = msg;
      msg_mr = message_mr;
      fd = none;
      file_name = 0 ∷ [];
      contents = [];
      message = record { id = msg_invalid; addr = 0; rkey = 0 };
      written = [];
    })
    post_receive id

  unfoldable pub on_connection : ℕ → M ServerMemory Call (Unit {0})
  on_connection id = do
    (p, ctx) ← conn_context id
    store p (record ctx {
      message = record {
        id = msg_mr;
        addr = v.mr_addr ctx.buffer_mr;
        rkey = v.mr_rkey ctx.buffer_mr;
      };
    })
    send_message id

  -- The three branches of `on_completion`: an empty write, a chunk, and the file name.
  unfoldable pub finish : ℕ → ℕ → ConnContext → M ServerMemory Call (Unit {0})
  finish id p ctx = do
    store p (record ctx { message = record ctx.message { id = msg_done } })
    send_message id

  unfoldable pub save_chunk : ℕ → ℕ → ConnContext → ℕ → M ServerMemory Call (Unit {0})
  save_chunk id p ctx size = do
    let bytes = take size ctx.contents
    fd ← deref ctx.fd
    ret ← call answer (write_file fd bytes)
    (if ret == size then skip else halt exit_failure)
    store p (record ctx { written = ctx.written ++ bytes })
    post_receive id
    store p (record ctx {
      written = ctx.written ++ bytes;
      message = record ctx.message { id = msg_ready };
    })
    send_message id

  unfoldable pub open_named : ℕ → ℕ → ConnContext → ℕ → M ServerMemory Call (Unit {0})
  open_named id p ctx size = do
    let kept = if ltb max_file_name size then max_file_name else size
    let name = take (kept - 1) ctx.contents ++ 0 ∷ []
    fd ← call answer (open_file (c_string name))
    (if fd == minus_one then halt exit_failure else skip)
    store p (record ctx { file_name = name; fd = some fd })
    post_receive id
    store p (record ctx {
      file_name = name;
      fd = some fd;
      message = record ctx.message { id = msg_ready };
    })
    send_message id

  abbrev pub is_write_with_imm : WcOpcode → Bool
  is_write_with_imm wc_recv_rdma_with_imm = true
  is_write_with_imm _ = false

  unfoldable pub on_completion : Wc → M ServerMemory Call (Unit {0})
  on_completion wc = do
    (p, ctx) ← conn_context wc.wr_id
    let size = v.ntohl wc.imm_data
    (if is_write_with_imm wc.opcode
        then if size == 0
          then finish wc.wr_id p ctx
          else if has_name ctx.file_name
          then save_chunk wc.wr_id p ctx size
          else open_named wc.wr_id p ctx size
        else skip)

  unfoldable pub on_disconnect : ℕ → M ServerMemory Call (Unit {0})
  on_disconnect id = do
    (p, ctx) ← conn_context id
    fd ← deref ctx.fd
    call_ answer (close_file fd)
    call_ answer (dereg_mr ctx.buffer_mr)
    call_ answer (dereg_mr ctx.msg_mr)
    call_ answer (free ctx.buffer)
    call_ answer (free ctx.msg)
    call_ answer (free p)
    release p

  -- The callbacks that `main` registers, and `main`.
  abbrev pub callbacks : Callbacks ConnContext
  callbacks =
      rc_init (some on_pre_conn) (some on_connection) (some on_completion) (some on_disconnect)

  unfoldable pub main : List Event → M ServerMemory Call (Unit {0})
  main events = rc_server_loop v callbacks default_port events
