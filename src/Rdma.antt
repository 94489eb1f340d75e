-- ===== src/Rdma.antt =====
-- The set-up of a connection, which the programs of examples/the-geek-in-the-corner share word for
-- word; here from 03_file-transfer/rdma-file-transfer/common.c.
mod Api
pub mod Events
pub mod Setup
pub use Api.*
use cs594_dcn_f.Prelude.{
  ℕ, Option, none, some, Bool, true, false, List, [], ◌∷◌, ◌==◌, if◌then◌else◌,
}
use cs594_dcn_f.Effects.{
  M, Log, Outcome, World, done, stop, exit_failure, fault, ◌>>=◌, ◌>>◌, skip, halt, pure, get, put,
  call, call_, test_nz, test_z, deref,
}

-- `struct context`. A field that is not yet assigned is 0.
pub record Context : Type 0 where
  pub ctx : ℕ
  pub pd : ℕ
  pub cq : ℕ
  pub comp_channel : ℕ

-- The memory of a program: the global `s_ctx`, the field `id->context` of each identifier, and the
-- structures of type `X` that live on the heap, by their address.
pub record Memory (X : Type 0) : Type 0 where
  pub s_ctx : Option Context
  pub context_of : ℕ → ℕ
  pub heap : ℕ → Option X

-- `(X *)p`: a null or a dangling pointer is a fault.
abbrev pub load : {X : Type 0} → ℕ → M (Memory X) Call X
load p = get >>= λ s. if p == 0 then halt fault else deref (s.heap p)

abbrev pub store : {X : Type 0} → ℕ → X → M (Memory X) Call (Unit {0})
store p x = get >>= λ s. put (record s { heap = update s.heap p (some x) })

-- The world in which address `p` holds `x`.
abbrev pub place : {X : Type 0} → ℕ → World (Memory X) Call → X → World (Memory X) Call
place p w x = record w { state = record w.state { heap = update w.state.heap p (some x) } }

abbrev pub release : {X : Type 0} → ℕ → M (Memory X) Call (Unit {0})
release p = get >>= λ s. put (record s { heap = update s.heap p none })

abbrev pub set_context : {X : Type 0} → Context → M (Memory X) Call (Unit {0})
set_context c = get >>= λ s. put (record s { s_ctx = some c })

abbrev pub set_id_context : {X : Type 0} → ℕ → ℕ → M (Memory X) Call (Unit {0})
set_id_context id p = get >>= λ s. put (record s { context_of = update s.context_of id p })

-- `id->context`, and the structure that it points to.
abbrev pub id_context : {X : Type 0} → ℕ → M (Memory X) Call ℕ
id_context id = get >>= λ s. pure (s.context_of id)

-- `s_ctx->...`
abbrev pub the_context : {X : Type 0} → M (Memory X) Call Context
the_context = get >>= λ s. deref s.s_ctx

-- Infinite retries: `rnr_retry_count` is 7.
unfoldable pub build_params : ConnParam
build_params = record { initiator_depth = 1; responder_resources = 1; rnr_retry_count = 7 }

module _ (v : Verbs) {X : Type 0} where
  open v use {answer}

  -- The part of `build_context` that runs once.
  unfoldable pub create_context : ℕ → M (Memory X) Call (Unit {0})
  create_context verbs = do
    p ← call answer (malloc context_struct)
    (if p == 0 then halt fault else skip)
    let c0 : Context = record { ctx = verbs; pd = 0; cq = 0; comp_channel = 0 }
    set_context c0
    pd ← test_z answer (alloc_pd verbs)
    let c1 : Context = record c0 { pd = pd }
    set_context c1
    channel ← test_z answer (create_comp_channel verbs)
    let c2 : Context = record c1 { comp_channel = channel }
    set_context c2
    cq ← test_z answer (create_cq verbs 10 channel)
    set_context (record c2 { cq = cq })
    test_nz answer (req_notify_cq cq)
    test_nz answer pthread_create

  unfoldable pub build_context : ℕ → M (Memory X) Call (Unit {0})
  build_context verbs w = elim w.state.s_ctx [
    | some c ↦ if c.ctx == verbs then skip w else halt exit_failure w
    | none ↦ create_context verbs w
  ]

  -- `s_ctx` is read here, so it must not be null.
  unfoldable pub build_qp_attr : M (Memory X) Call QpAttr
  build_qp_attr = do
    c ← the_context
    pure (record {
      send_cq = c.cq;
      recv_cq = c.cq;
      qp_type = qpt_rc;
      max_send_wr = 10;
      max_recv_wr = 10;
      max_send_sge = 1;
      max_recv_sge = 1;
    })

  -- `build_connection` of common.c.
  unfoldable pub build_connection : ℕ → M (Memory X) Call (Unit {0})
  build_connection id = do
    build_context (v.verbs_of id)
    attr ← build_qp_attr
    c ← the_context
    test_nz answer (create_qp id c.pd attr)
