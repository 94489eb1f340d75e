-- ===== src/ReadWrite/Server.antt =====
-- examples/the-geek-in-the-corner/02_read-write/rdma-server.c.
use cs594_dcn_f.Prelude.{ℕ, Bool, false, List, [], ◌∷◌, if◌then◌else◌}
use cs594_dcn_f.Effects.{M, exit_failure, ◌>>=◌, ◌>>◌, halt, pure, call_, stored, test_nz, test_z}
use cs594_dcn_f.Rdma.{
  Verbs, Call, Event, EventType, addr_resolved, route_resolved, connect_request, established,
  disconnected, other_event, ack_cm_event, accept, create_event_channel, create_id, bind_addr,
  listen, destroy_id, destroy_event_channel, sprintf_greeting, from_passive, load, id_context,
}
use cs594_dcn_f.ReadWrite.Common.{
  Mode, ConnMemory, build_connection, build_params, destroy_connection, get_local_message_region,
  on_connect,
}

module _ (v : Verbs) where
  open v use {answer}

  unfoldable pub on_connect_request : Mode → ℕ → M ConnMemory Call Bool
  on_connect_request mode id = do
    build_connection v mode id
    p ← id_context id
    conn ← load p
    call_ answer (sprintf_greeting (get_local_message_region mode conn) from_passive)
    test_nz answer (accept id build_params)
    pure false

  unfoldable pub on_connection : ℕ → M ConnMemory Call Bool
  on_connection id = do p ← id_context id; on_connect v p; pure false

  unfoldable pub on_disconnect : ℕ → M ConnMemory Call Bool
  on_disconnect id = do p ← id_context id; destroy_connection v p; pure false

  unfoldable pub on_event : Mode → EventType → ℕ → M ConnMemory Call Bool
  on_event mode connect_request id = on_connect_request mode id
  on_event mode established id = on_connection id
  on_event mode disconnected id = on_disconnect id
  on_event mode addr_resolved id = halt exit_failure
  on_event mode route_resolved id = halt exit_failure
  on_event mode other_event id = halt exit_failure

  -- The loop of `main`; the answer is the events that were not read.
  unfoldable pub event_loop : Mode → List Event → M ConnMemory Call (List Event)
  event_loop mode [] = pure []
  event_loop mode (e ∷ es) = do
    call_ answer (ack_cm_event e)
    ended ← on_event mode e.event e.id
    (if ended then pure es else event_loop mode es)

  -- `main` after the checks of its arguments, with the port that was asked for.
  unfoldable pub main : Mode → ℕ → List Event → M ConnMemory Call (Unit {0})
  main mode try_port events = do
    ec ← test_z answer create_event_channel
    test_nz answer (create_id ec)
    listener ← stored v.created_id
    test_nz answer (bind_addr listener try_port)
    test_nz answer (listen listener 10)
    left ← event_loop mode events
    call_ answer (destroy_id listener)
    call_ answer (destroy_event_channel ec)
