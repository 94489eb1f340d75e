-- ===== src/Basic/Client.antt =====
-- examples/the-geek-in-the-corner/01_basic-client-server/client.c.
pub mod Completions
use cs594_dcn_f.Prelude.{ℕ, ◌+◌, Bool, true, false, ◌==◌, List, [], ◌∷◌, if◌then◌else◌}
use cs594_dcn_f.Effects.{
  M, exit_failure, ◌>>=◌, ◌>>◌, skip, halt, pure, call_, stored, test_nz, test_z,
}
use cs594_dcn_f.Rdma.{
  Verbs, Call, Wc, WcOpcode, wc_send, wc_rdma_write, wc_rdma_read, wc_recv, wc_recv_rdma_with_imm,
  wc_other, Event, EventType, addr_resolved, route_resolved, connect_request, established,
  disconnected, other_event, ack_cm_event, resolve_route, connect, disconnect, getaddrinfo,
  freeaddrinfo, create_event_channel, create_id, resolve_addr, destroy_event_channel, print_region,
  from_active, zero_conn_param, load, store, id_context,
}
use cs594_dcn_f.Basic.Common.{ConnMemory, Connection, set_up, send_greeting, tear_down}

abbrev pub timeout_in_ms : ℕ
timeout_in_ms = 500

-- `wc->opcode == IBV_WC_SEND`
abbrev pub is_send : WcOpcode → Bool
is_send wc_send = true
is_send wc_rdma_write = false
is_send wc_rdma_read = false
is_send wc_recv = false
is_send wc_recv_rdma_with_imm = false
is_send wc_other = false

module _ (v : Verbs) where
  open v use {answer}

  unfoldable pub on_addr_resolved : ℕ → M ConnMemory Call Bool
  on_addr_resolved id = do
    set_up v id id
    test_nz answer (resolve_route id timeout_in_ms)
    pure false

  -- What the kind of a completion calls for.
  unfoldable pub report : WcOpcode → Connection → M ConnMemory Call (Unit {0})
  report op conn =
      if v.recv_bit op
      then call_ answer (print_region conn.recv_region)
      else if is_send op
      then skip
      else halt exit_failure

  -- The second completion ends the connection. `num_completions` is an `int`, which a client never
  -- brings near to its bound: it posts one send and one receive.
  unfoldable pub on_completion : Wc → M ConnMemory Call (Unit {0})
  on_completion wc = do
    (if wc.success then skip else halt exit_failure)
    conn ← load wc.wr_id
    report wc.opcode conn
    store wc.wr_id (record conn { num_completions = conn.num_completions + 1 })
    (if (conn.num_completions + 1) == 2 then call_ answer (disconnect conn.id) else skip)

  unfoldable pub on_connection : ℕ → M ConnMemory Call Bool
  on_connection p = send_greeting v from_active p p

  unfoldable pub on_disconnect : ℕ → M ConnMemory Call Bool
  on_disconnect id = tear_down v true id

  unfoldable pub on_route_resolved : ℕ → M ConnMemory Call Bool
  on_route_resolved id = do test_nz answer (connect id zero_conn_param); pure false

  -- `on_event` by the type of the event; any other type is fatal.
  unfoldable pub on_event : EventType → ℕ → M ConnMemory Call Bool
  on_event addr_resolved id = on_addr_resolved id
  on_event route_resolved id = on_route_resolved id
  on_event established id = do p ← id_context id; on_connection p
  on_event disconnected id = on_disconnect id
  on_event connect_request id = halt exit_failure
  on_event other_event id = halt exit_failure

  -- The loop of `main`; the answer is the events that were not read.
  unfoldable pub event_loop : List Event → M ConnMemory Call (List Event)
  event_loop [] = pure []
  event_loop (e ∷ es) = do
    call_ answer (ack_cm_event e)
    ended ← on_event e.event e.id
    (if ended then pure es else event_loop es)

  -- `main` after the check of its arguments.
  unfoldable pub main : List Event → M ConnMemory Call (Unit {0})
  main events = do
    test_nz answer getaddrinfo
    ec ← test_z answer create_event_channel
    test_nz answer (create_id ec)
    conn ← stored v.created_id
    test_nz answer (resolve_addr conn timeout_in_ms)
    call_ answer freeaddrinfo
    left ← event_loop events
    call_ answer (destroy_event_channel ec)
