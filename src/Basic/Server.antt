-- ===== src/Basic/Server.antt =====
-- examples/the-geek-in-the-corner/01_basic-client-server/server.c. Its request to send has
-- `wr_id = 0`, since only the completion of a receive looks there.
use cs594_dcn_f.Prelude.{ℕ, Bool, false, List, [], ◌∷◌, if◌then◌else◌}
use cs594_dcn_f.Effects.{
  M, exit_failure, ◌>>=◌, ◌>>◌, skip, halt, pure, call_, stored, test_nz, test_z,
}
use cs594_dcn_f.Rdma.{
  Verbs, Call, Wc, Event, EventType, addr_resolved, route_resolved, connect_request, established,
  disconnected, other_event, ack_cm_event, accept, bind_addr, listen, create_event_channel,
  create_id, destroy_id, destroy_event_channel, print_region, from_passive, zero_conn_param, load,
  id_context,
}
use cs594_dcn_f.Basic.Common.{ConnMemory, set_up, send_greeting, tear_down}

module _ (v : Verbs) where
  open v use {answer}

  unfoldable pub on_completion : Wc → M ConnMemory Call (Unit {0})
  on_completion wc = do
    (if wc.success then skip else halt exit_failure)
    (if v.recv_bit wc.opcode
        then load wc.wr_id >>= (λ conn. call_ answer (print_region conn.recv_region))
        else skip)

  unfoldable pub on_connect_request : ℕ → M ConnMemory Call Bool
  on_connect_request id = do set_up v id 0; test_nz answer (accept id zero_conn_param); pure false

  unfoldable pub on_connection : ℕ → M ConnMemory Call Bool
  on_connection p = send_greeting v from_passive 0 p

  unfoldable pub on_disconnect : ℕ → M ConnMemory Call Bool
  on_disconnect id = tear_down v false id

  -- `on_event` by the type of the event; any other type is fatal.
  unfoldable pub on_event : EventType → ℕ → M ConnMemory Call Bool
  on_event connect_request id = on_connect_request id
  on_event established id = do p ← id_context id; on_connection p
  on_event disconnected id = on_disconnect id
  on_event addr_resolved id = halt exit_failure
  on_event route_resolved id = halt exit_failure
  on_event other_event id = halt exit_failure

  -- The loop of `main`; the answer is the events that were not read.
  unfoldable pub event_loop : List Event → M ConnMemory Call (List Event)
  event_loop [] = pure []
  event_loop (e ∷ es) = do
    call_ answer (ack_cm_event e)
    ended ← on_event e.event e.id
    (if ended then pure es else event_loop es)

  -- `main`, which binds to a port that the library picks (0).
  unfoldable pub main : List Event → M ConnMemory Call (Unit {0})
  main events = do
    ec ← test_z answer create_event_channel
    test_nz answer (create_id ec)
    listener ← stored v.created_id
    test_nz answer (bind_addr listener 0)
    test_nz answer (listen listener 10)
    left ← event_loop events
    call_ answer (destroy_id listener)
    call_ answer (destroy_event_channel ec)
