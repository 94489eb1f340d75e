-- ===== src/ReadWrite/Common.antt =====
-- examples/the-geek-in-the-corner/02_read-write/rdma-common.h and rdma-common.c. The global `s_mode`
-- is an argument, since `main` sets it once, before any handler runs.
use cs594_dcn_f.Prelude.{
  ℕ, ◌+◌, ◌%◌, ◌^◌, Bool, true, false, ◌&&◌, ◌||◌, Option, none, some, List, [], ◌∷◌, ◌==◌,
  if◌then◌else◌,
}
use cs594_dcn_f.Effects.{
  M, exit_failure, fault, hung, ◌>>=◌, ◌>>◌, get, put, skip, halt, call, call_, test_nz, test_z,
}
use cs594_dcn_f.Rdma
use cs594_dcn_f.Rdma.{
  Verbs, Call, Wc, WrOpcode, wr_send, wr_rdma_write, wr_rdma_read, SendWr, Access, no_access,
  access_local_write, QpAttr, ConnParam, malloc, free, reg_mr, dereg_mr, post_send, post_recv,
  get_cq_event, ack_cq_events, req_notify_cq, create_qp, destroy_qp, destroy_id, disconnect,
  print_region, region, connection_struct, message_struct, Memory, load, store, update, release,
  set_id_context, the_context,
}

pub data Mode : Type 0 where
  m_write m_read : Mode

abbrev pub rdma_buffer_size : ℕ
rdma_buffer_size = 1024

pub data MessageType : Type 0 where
  msg_mr msg_done msg_other : MessageType

-- The fields of a `struct ibv_mr` that the peer uses.
pub record Mr : Type 0 where
  pub addr : ℕ
  pub rkey : ℕ

-- `struct message`.
pub record Message : Type 0 where
  pub type : MessageType
  pub mr : Mr

-- The values of the enums `send_state` and `recv_state`, which the program counts through.
abbrev pub ss_init : ℕ
ss_init = 0

abbrev pub ss_mr_sent : ℕ
ss_mr_sent = 1

abbrev pub ss_rdma_sent : ℕ
ss_rdma_sent = 2

abbrev pub ss_done_sent : ℕ
ss_done_sent = 3

abbrev pub rs_init : ℕ
rs_init = 0

abbrev pub rs_mr_recv : ℕ
rs_mr_recv = 1

abbrev pub rs_done_recv : ℕ
rs_done_recv = 2

-- `struct connection`. `recv_msg`, `send_msg` and the regions are addresses; `received` and `sending`
-- are what `*recv_msg` and `*send_msg` hold. A field that is not yet assigned is 0.
pub record Connection : Type 0 where
  pub id : ℕ
  pub qp : ℕ
  pub connected : Bool
  pub recv_mr : ℕ
  pub send_mr : ℕ
  pub rdma_local_mr : ℕ
  pub rdma_remote_mr : ℕ
  pub peer_mr : Mr
  pub recv_msg : ℕ
  pub send_msg : ℕ
  pub received : Message
  pub sending : Message
  pub rdma_local_region : ℕ
  pub rdma_remote_region : ℕ
  pub send_state : ℕ
  pub recv_state : ℕ

abbrev pub ConnMemory : Type 0
ConnMemory = Memory Connection

-- A completion that `ibv_poll_cq` brings, and what others have done to its connection since the last: the
-- card has put `message` into `*recv_msg`, which may be what it held before, and the event thread may have
-- set the flag.
pub record Polled : Type 0 where
  pub wc : Wc
  pub message : Message
  pub established : Bool

abbrev pub changed : Polled → Option Connection → Option Connection
changed x none = none
changed x (some conn) =
    some (record conn { received = x.message; connected = conn.connected || x.established })

unfoldable pub others : Polled → M ConnMemory Call (Unit {0})
others x =
    get >>= λ s. put (record s { heap = update s.heap x.wc.wr_id (changed x (s.heap x.wc.wr_id)) })

-- `state++` on an `unsigned int`.
abbrev pub next_state : ℕ → ℕ
next_state k = (k + 1) % 2 ^ 32

abbrev pub no_message : Message
no_message = record { type = msg_other; mr = record { addr = 0; rkey = 0 } }

unfoldable pub build_params : ConnParam
build_params = record { initiator_depth = 1; responder_resources = 1; rnr_retry_count = 7 }

unfoldable pub get_local_message_region : Mode → Connection → ℕ
get_local_message_region m_write conn = conn.rdma_local_region
get_local_message_region m_read conn = conn.rdma_remote_region

unfoldable pub get_peer_message_region : Mode → Connection → ℕ
get_peer_message_region m_write conn = conn.rdma_remote_region
get_peer_message_region m_read conn = conn.rdma_local_region

-- What a mode lets the card do with the local and with the remote region.
abbrev pub local_access : Mode → Access
local_access m_write = no_access
local_access m_read = access_local_write

abbrev pub remote_access : Mode → Access
remote_access m_write = record { local_write = true; remote_write = true; remote_read = false }
remote_access m_read = record { local_write = false; remote_write = false; remote_read = true }

abbrev pub rdma_opcode : Mode → WrOpcode
rdma_opcode m_write = wr_rdma_write
rdma_opcode m_read = wr_rdma_read

-- The request of `send_message`.
unfoldable pub message_request : Verbs → ℕ → Connection → SendWr
message_request v p conn = record {
  wr_id = p;
  opcode = wr_send;
  sg_list =
      some (record {
        addr = conn.send_msg;
        length = v.size_of_message;
        lkey = v.mr_lkey conn.send_mr;
      });
  signaled = true;
  imm_data = 0;
  remote_addr = 0;
  rkey = 0;
}

-- The request with which `on_completion` moves the peer's buffer.
unfoldable pub rdma_request : Verbs → Mode → ℕ → Connection → SendWr
rdma_request v mode p conn = record {
  wr_id = p;
  opcode = rdma_opcode mode;
  sg_list = some (record {
    addr = conn.rdma_local_region;
    length = rdma_buffer_size;
    lkey = v.mr_lkey conn.rdma_local_mr;
  });
  signaled = true;
  imm_data = 0;
  remote_addr = conn.peer_mr.addr;
  rkey = conn.peer_mr.rkey;
}

module _ (v : Verbs) where
  open v use {answer}

  unfoldable pub build_context : ℕ → M ConnMemory Call (Unit {0})
  build_context verbs = Rdma.build_context v verbs

  unfoldable pub build_qp_attr : M ConnMemory Call QpAttr
  build_qp_attr = Rdma.build_qp_attr v

  unfoldable pub post_receives : ℕ → M ConnMemory Call (Unit {0})
  post_receives p = do
    conn ← load p
    test_nz answer (
        post_recv conn.qp (record {
          wr_id = p;
          sg_list = some (record {
            addr = conn.recv_msg;
            length = v.size_of_message;
            lkey = v.mr_lkey conn.recv_mr;
          });
        }))

  unfoldable pub register_memory : Mode → ℕ → M ConnMemory Call (Unit {0})
  register_memory mode p = do
    conn ← load p
    send_msg ← call answer (malloc message_struct)
    recv_msg ← call answer (malloc message_struct)
    local_region ← call answer (malloc (region rdma_buffer_size))
    remote_region ← call answer (malloc (region rdma_buffer_size))
    c ← the_context
    send_mr ← test_z answer (reg_mr c.pd send_msg v.size_of_message no_access)
    recv_mr ← test_z answer (reg_mr c.pd recv_msg v.size_of_message access_local_write)
    local_mr ← test_z answer (reg_mr c.pd local_region rdma_buffer_size (local_access mode))
    remote_mr ← test_z answer (reg_mr c.pd remote_region rdma_buffer_size (remote_access mode))
    store p (record conn {
      send_msg = send_msg;
      recv_msg = recv_msg;
      rdma_local_region = local_region;
      rdma_remote_region = remote_region;
      send_mr = send_mr;
      recv_mr = recv_mr;
      rdma_local_mr = local_mr;
      rdma_remote_mr = remote_mr;
    })

  unfoldable pub build_connection : Mode → ℕ → M ConnMemory Call (Unit {0})
  build_connection mode id = do
    build_context (v.verbs_of id)
    attr ← build_qp_attr
    c ← the_context
    test_nz answer (create_qp id c.pd attr)
    p ← call answer (malloc connection_struct)
    set_id_context id p
    (if p == 0 then halt fault else skip)
    store p (record {
      id = id;
      qp = v.qp_of id;
      connected = false;
      recv_mr = 0;
      send_mr = 0;
      rdma_local_mr = 0;
      rdma_remote_mr = 0;
      peer_mr = record { addr = 0; rkey = 0 };
      recv_msg = 0;
      send_msg = 0;
      received = no_message;
      sending = no_message;
      rdma_local_region = 0;
      rdma_remote_region = 0;
      send_state = ss_init;
      recv_state = rs_init;
    })
    register_memory mode p
    post_receives p

  unfoldable pub destroy_connection : ℕ → M ConnMemory Call (Unit {0})
  destroy_connection p = do
    conn ← load p
    call_ answer (destroy_qp conn.id)
    call_ answer (dereg_mr conn.send_mr)
    call_ answer (dereg_mr conn.recv_mr)
    call_ answer (dereg_mr conn.rdma_local_mr)
    call_ answer (dereg_mr conn.rdma_remote_mr)
    call_ answer (free conn.send_msg)
    call_ answer (free conn.recv_msg)
    call_ answer (free conn.rdma_local_region)
    call_ answer (free conn.rdma_remote_region)
    call_ answer (destroy_id conn.id)
    call_ answer (free p)
    release p

  unfoldable pub on_connect : ℕ → M ConnMemory Call (Unit {0})
  on_connect p = do conn ← load p; store p (record conn { connected = true })

  -- `while (!conn->connected);` ends at once if the flag is set. If not, the thread spins until the
  -- other one sets it: a run in which that happens is the one in which it was set before, and one in which
  -- it never happens stops as `hung`.
  unfoldable pub send_message : ℕ → M ConnMemory Call (Unit {0})
  send_message p = do
    conn ← load p
    (if conn.connected then skip else halt hung)
    test_nz answer (post_send conn.qp (message_request v p conn))

  unfoldable pub send_mr : ℕ → M ConnMemory Call (Unit {0})
  send_mr p = do
    conn ← load p
    store p (record conn {
      sending = record {
        type = msg_mr;
        mr = record { addr = v.mr_addr conn.rdma_remote_mr; rkey = v.mr_rkey conn.rdma_remote_mr };
      };
    })
    send_message p

  -- The branch of `on_completion` for a receive.
  unfoldable pub on_recv_type : ℕ → Connection → MessageType → M ConnMemory Call (Unit {0})
  on_recv_type p conn msg_mr = do
    store p (record conn { peer_mr = conn.received.mr })
    post_receives p
    (if conn.send_state == ss_init then send_mr p else skip)
  on_recv_type p conn _ = skip

  unfoldable pub on_recv : ℕ → Connection → M ConnMemory Call (Unit {0})
  on_recv p conn0 = do
    let conn = record conn0 { recv_state = next_state conn0.recv_state }
    store p conn
    on_recv_type p conn conn.received.type

  -- The branch for any other completion.
  unfoldable pub on_sent : ℕ → Connection → M ConnMemory Call (Unit {0})
  on_sent p conn = store p (record conn { send_state = next_state conn.send_state })

  -- The RDMA operation, and MSG_DONE behind it.
  unfoldable pub start_rdma : Mode → ℕ → Connection → M ConnMemory Call (Unit {0})
  start_rdma mode p conn = do
    test_nz answer (post_send conn.qp (rdma_request v mode p conn))
    store p (record conn { sending = record conn.sending { type = msg_done } })
    send_message p

  unfoldable pub finish : Mode → Connection → M ConnMemory Call (Unit {0})
  finish mode conn = do
    call_ answer (print_region (get_peer_message_region mode conn))
    call_ answer (disconnect conn.id)

  -- The end of `on_completion`: what the two states together call for.
  unfoldable pub advance : Mode → ℕ → Connection → M ConnMemory Call (Unit {0})
  advance mode p conn =
      if (conn.send_state == ss_mr_sent) && (conn.recv_state == rs_mr_recv)
      then start_rdma mode p conn
      else if (conn.send_state == ss_done_sent) && (conn.recv_state == rs_done_recv)
      then finish mode conn
      else skip

  unfoldable pub on_completion : Mode → Wc → M ConnMemory Call (Unit {0})
  on_completion mode wc = do
    (if wc.success then skip else halt exit_failure)
    conn ← load wc.wr_id
    (if v.recv_bit wc.opcode then on_recv wc.wr_id conn else on_sent wc.wr_id conn)
    conn' ← load wc.wr_id
    advance mode wc.wr_id conn'

  unfoldable pub drain_cq : Mode → List Polled → M ConnMemory Call (Unit {0})
  drain_cq mode [] = skip
  drain_cq mode (x ∷ xs) = do others x; on_completion mode x.wc; drain_cq mode xs

  -- `poll_cq` over the completions behind each completion event. The thread never returns: after
  -- the last event it is blocked in `ibv_get_cq_event`.
  unfoldable pub poll_cq : Mode → List (List Polled) → M ConnMemory Call (Unit {0})
  poll_cq mode [] = halt hung
  poll_cq mode (batch ∷ later) = do
    c ← the_context
    test_nz answer (get_cq_event c.comp_channel)
    call_ answer (ack_cq_events c.cq 1)
    test_nz answer (req_notify_cq c.cq)
    drain_cq mode batch
    poll_cq mode later
