-- ===== src/FileTransfer/Common.antt =====
-- examples/the-geek-in-the-corner/03_file-transfer/rdma-file-transfer/common.c: the loop over
-- connection events, the completion thread, and the callbacks through which they reach a program.
use cs594_dcn_f.Prelude.{ℕ, Bool, true, false, Option, none, some, List, [], ◌∷◌, if◌then◌else◌}
use cs594_dcn_f.Effects.{
  M, exit_failure, hung, ◌>>=◌, ◌>>◌, skip, halt, pure, call_, test_nz, test_z, deref, stored,
}
use cs594_dcn_f.Rdma.{
  Verbs, Call, Wc, Event, EventType, addr_resolved, route_resolved, connect_request, established,
  disconnected, other_event, resolve_route, connect, accept, disconnect, ack_cm_event, get_cq_event,
  ack_cq_events, req_notify_cq, destroy_qp, destroy_id, destroy_event_channel, getaddrinfo,
  create_event_channel, create_id, resolve_addr, freeaddrinfo, bind_addr, listen, Memory,
  the_context, set_id_context, build_connection, build_params,
}

abbrev pub timeout_in_ms : ℕ
timeout_in_ms = 500

-- The four callback globals of common.c; `none` is NULL.
pub record Callbacks (X : Type 0) : Type 0 where
  pub on_pre_conn : Option (ℕ → M (Memory X) Call (Unit {0}))
  pub on_connect : Option (ℕ → M (Memory X) Call (Unit {0}))
  pub on_completion : Option (Wc → M (Memory X) Call (Unit {0}))
  pub on_disconnect : Option (ℕ → M (Memory X) Call (Unit {0}))

abbrev pub rc_init :
    {X : Type 0}
    → Option (ℕ → M (Memory X) Call (Unit {0}))
    → Option (ℕ → M (Memory X) Call (Unit {0}))
    → Option (Wc → M (Memory X) Call (Unit {0}))
    → Option (ℕ → M (Memory X) Call (Unit {0}))
    → Callbacks X
rc_init pc conn comp disc = record {
  on_pre_conn = pc;
  on_connect = conn;
  on_completion = comp;
  on_disconnect = disc;
}

-- `if (callback) callback(id);`
abbrev pub when_set :
    {X : Type 0} → Option (ℕ → M (Memory X) Call (Unit {0})) → ℕ → M (Memory X) Call (Unit {0})
when_set none id = skip
when_set (some f) id = f id

module _ (v : Verbs) {X : Type 0} (cb : Callbacks X) where
  open v use {answer}

  -- The chain of tests of `event_loop`; the answer says whether the loop ends.
  unfoldable pub dispatch : Bool → EventType → ℕ → M (Memory X) Call Bool
  dispatch exit_on_disconnect addr_resolved id = do
    build_connection v id
    when_set cb.on_pre_conn id
    test_nz answer (resolve_route id timeout_in_ms)
    pure false
  dispatch exit_on_disconnect route_resolved id = do
    test_nz answer (connect id build_params)
    pure false
  dispatch exit_on_disconnect connect_request id = do
    build_connection v id
    when_set cb.on_pre_conn id
    test_nz answer (accept id build_params)
    pure false
  dispatch exit_on_disconnect established id = do when_set cb.on_connect id; pure false
  dispatch exit_on_disconnect disconnected id = do
    call_ answer (destroy_qp id)
    when_set cb.on_disconnect id
    call_ answer (destroy_id id)
    pure exit_on_disconnect
  dispatch exit_on_disconnect other_event id = halt exit_failure

  -- `event_loop` over the events that `rdma_get_cm_event` hands out; it fails after the last. The
  -- answer is the events that were not read.
  unfoldable pub event_loop : List Event → Bool → M (Memory X) Call (List Event)
  event_loop [] exit_on_disconnect = pure []
  event_loop (e ∷ es) exit_on_disconnect = do
    call_ answer (ack_cm_event e)
    ended ← dispatch exit_on_disconnect e.event e.id
    (if ended then pure es else event_loop es exit_on_disconnect)

  -- The body of the inner loop of `poll_cq`.
  unfoldable pub on_wc : Wc → M (Memory X) Call (Unit {0})
  on_wc wc = if wc.success then (deref cb.on_completion >>= λ f. f wc) else halt exit_failure

  unfoldable pub drain_cq : List Wc → M (Memory X) Call (Unit {0})
  drain_cq [] = skip
  drain_cq (wc ∷ wcs) = do on_wc wc; drain_cq wcs

  -- `poll_cq` over the completions behind each completion event. The thread never returns: after
  -- the last event it is blocked in `ibv_get_cq_event`.
  unfoldable pub poll_cq : List (List Wc) → M (Memory X) Call (Unit {0})
  poll_cq [] = halt hung
  poll_cq (batch ∷ later) = do
    c ← the_context
    test_nz answer (get_cq_event c.comp_channel)
    call_ answer (ack_cq_events c.cq 1)
    test_nz answer (req_notify_cq c.cq)
    drain_cq batch
    poll_cq later

  -- `rc_client_loop`, with the address of its `context` argument.
  unfoldable pub rc_client_loop : ℕ → List Event → M (Memory X) Call (Unit {0})
  rc_client_loop context events = do
    test_nz answer getaddrinfo
    ec ← test_z answer create_event_channel
    test_nz answer (create_id ec)
    conn ← stored v.created_id
    test_nz answer (resolve_addr conn timeout_in_ms)
    call_ answer freeaddrinfo
    set_id_context conn context
    left ← event_loop events true
    call_ answer (destroy_event_channel ec)

  unfoldable pub rc_server_loop : ℕ → List Event → M (Memory X) Call (Unit {0})
  rc_server_loop port events = do
    ec ← test_z answer create_event_channel
    test_nz answer (create_id ec)
    listener ← stored v.created_id
    test_nz answer (bind_addr listener port)
    test_nz answer (listen listener 10)
    left ← event_loop events false
    call_ answer (destroy_id listener)
    call_ answer (destroy_event_channel ec)

-- `rc_disconnect`; the answer of `rdma_disconnect` is ignored.
unfoldable pub rc_disconnect : {X : Type 0} (v : Verbs) → ℕ → M (Memory X) Call (Unit {0})
rc_disconnect v id = call_ v.answer (disconnect id)

-- `rc_get_pd`: a null `s_ctx` is a fault.
unfoldable pub rc_get_pd : {X : Type 0} (v : Verbs) → M (Memory X) Call ℕ
rc_get_pd v = do c ← the_context; pure c.pd
