-- ===== src/FileTransfer/Messages.antt =====
-- examples/the-geek-in-the-corner/03_file-transfer/rdma-file-transfer/messages.h.
use cs594_dcn_f.Prelude.{ℕ, ◌*◌}

abbrev pub default_port : ℕ
default_port = 12345

abbrev pub buffer_size : ℕ
buffer_size = 10 * 1024 * 1024

-- `enum message_id`; the field `id` of a message is an `int`, and may hold another number.
pub data MessageId : Type 0 where
  msg_invalid msg_mr msg_ready msg_done : MessageId
  msg_other : ℕ → MessageId

-- `struct message`; `addr` and `rkey` are `data.mr`.
pub record Message : Type 0 where
  pub id : MessageId
  pub addr : ℕ
  pub rkey : ℕ
