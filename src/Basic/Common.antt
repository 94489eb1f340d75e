-- ===== src/Basic/Common.antt =====
-- What client.c and server.c of examples/the-geek-in-the-corner/01_basic-client-server share word
-- for word. The server's `struct connection` lacks `id` and `num_completions`, which stay 0 there.
use cs594_dcn_f.Prelude.{ℕ, Bool, true, false, some, List, [], ◌∷◌, ◌==◌, if◌then◌else◌}
use cs594_dcn_f.Effects.{
  M, hung, fault, ◌>>=◌, ◌>>◌, skip, halt, pure, call, call_, test_nz, test_z,
}
use cs594_dcn_f.Rdma
use cs594_dcn_f.Rdma.{
  Verbs, Call, Wc, Context, QpAttr, no_access, access_local_write, wr_send, SendWr, malloc, free,
  reg_mr, dereg_mr, post_send, post_recv, get_cq_event, ack_cq_events, req_notify_cq, create_qp,
  destroy_qp, destroy_id, sprintf_greeting, Greeting, region, connection_struct, Memory, load,
  store, release, id_context, set_id_context, the_context,
}

abbrev pub buffer_size : ℕ
buffer_size = 1024

-- `struct connection`. A field that is not yet assigned is 0.
pub record Connection : Type 0 where
  pub id : ℕ
  pub qp : ℕ
  pub recv_mr : ℕ
  pub send_mr : ℕ
  pub recv_region : ℕ
  pub send_region : ℕ
  pub num_completions : ℕ

abbrev pub ConnMemory : Type 0
ConnMemory = Memory Connection

module _ (v : Verbs) where
  open v use {answer}

  -- The global context is created by the first connection.
  unfoldable pub build_context : ℕ → M ConnMemory Call (Unit {0})
  build_context verbs = Rdma.build_context v verbs

  unfoldable pub build_qp_attr : M ConnMemory Call QpAttr
  build_qp_attr = Rdma.build_qp_attr v

  unfoldable pub post_receives : ℕ → M ConnMemory Call (Unit {0})
  post_receives p = do
    conn ← load p
    test_nz answer (
        post_recv conn.qp (record {
          wr_id = p;
          sg_list = some (record {
            addr = conn.recv_region;
            length = buffer_size;
            lkey = v.mr_lkey conn.recv_mr;
          });
        }))

  unfoldable pub register_memory : ℕ → M ConnMemory Call (Unit {0})
  register_memory p = do
    conn ← load p
    send_region ← call answer (malloc (region buffer_size))
    recv_region ← call answer (malloc (region buffer_size))
    let c1 : Connection = record conn { send_region = send_region; recv_region = recv_region }
    store p c1
    c ← the_context
    send_mr ← test_z answer (reg_mr c.pd send_region buffer_size no_access)
    let c2 : Connection = record c1 { send_mr = send_mr }
    store p c2
    recv_mr ← test_z answer (reg_mr c.pd recv_region buffer_size access_local_write)
    store p (record c2 { recv_mr = recv_mr })

  -- The part of `on_addr_resolved` and of `on_connect_request` that both programs have: the queue
  -- pair, the connection with the identifier `owner` that it stores, and the first receive.
  unfoldable pub set_up : ℕ → ℕ → M ConnMemory Call (Unit {0})
  set_up id owner = do
    build_context (v.verbs_of id)
    attr ← build_qp_attr
    c ← the_context
    test_nz answer (create_qp id c.pd attr)
    p ← call answer (malloc connection_struct)
    set_id_context id p
    (if p == 0 then halt fault else skip)
    let conn : Connection = record {
      id = owner;
      qp = v.qp_of id;
      recv_mr = 0;
      send_mr = 0;
      recv_region = 0;
      send_region = 0;
      num_completions = 0;
    }
    store p conn
    register_memory p
    post_receives p

  -- `on_connection`, with the text that it writes and the `wr_id` of its request.
  unfoldable pub send_greeting : Greeting → ℕ → ℕ → M ConnMemory Call Bool
  send_greeting text wr_id p = do
    conn ← load p
    call_ answer (sprintf_greeting conn.send_region text)
    let request : SendWr = record {
      wr_id = wr_id;
      opcode = wr_send;
      sg_list =
          some (record {
            addr = conn.send_region;
            length = buffer_size;
            lkey = v.mr_lkey conn.send_mr;
          });
      signaled = true;
      imm_data = 0;
      remote_addr = 0;
      rkey = 0;
    }
    test_nz answer (post_send conn.qp request)
    pure false

  -- `on_disconnect`; the answer is what it returns.
  unfoldable pub tear_down : Bool → ℕ → M ConnMemory Call Bool
  tear_down ended id = do
    p ← id_context id
    call_ answer (destroy_qp id)
    conn ← load p
    call_ answer (dereg_mr conn.send_mr)
    call_ answer (dereg_mr conn.recv_mr)
    call_ answer (free conn.send_region)
    call_ answer (free conn.recv_region)
    call_ answer (free p)
    release p
    call_ answer (destroy_id id)
    pure ended

  -- The completions that one event brings, in the order in which `ibv_poll_cq` gives them.
  unfoldable pub drain_cq :
      (Wc → M ConnMemory Call (Unit {0})) → List Wc → M ConnMemory Call (Unit {0})
  drain_cq on_completion [] = skip
  drain_cq on_completion (wc ∷ wcs) = do on_completion wc; drain_cq on_completion wcs

  -- The thread `poll_cq`, over the completions that each event brings; then it waits for ever.
  unfoldable pub poll_cq :
      (Wc → M ConnMemory Call (Unit {0})) → List (List Wc) → M ConnMemory Call (Unit {0})
  poll_cq on_completion [] = halt hung
  poll_cq on_completion (wcs ∷ rest) = do
    c ← the_context
    test_nz answer (get_cq_event c.comp_channel)
    call_ answer (ack_cq_events c.cq 1)
    test_nz answer (req_notify_cq c.cq)
    drain_cq on_completion wcs
    poll_cq on_completion rest
