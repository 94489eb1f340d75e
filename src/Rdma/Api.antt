-- ===== src/Rdma/Api.antt =====
-- What the programs of examples/the-geek-in-the-corner use of librdmacm, libibverbs and the C
-- library: the structures that they fill, the calls that they make, and, as the record `Verbs`, the
-- answers and the fields of objects which the libraries own. None of that code is in the repository,
-- so it is a parameter throughout.
use cs594_dcn_f.Prelude.{
  ℕ, ◌≡◌, ap, ==_refl, ◌-◌, ◌^◌, Bool, true, false, Option, List, ◌==◌, if◌then◌else◌,
}
use cs594_dcn_f.Effects.{Log}

-- The bits of an `ibv_access_flags` mask.
pub record Access : Type 0 where
  pub local_write : Bool
  pub remote_write : Bool
  pub remote_read : Bool

abbrev pub no_access : Access
no_access = record { local_write = false; remote_write = false; remote_read = false }

abbrev pub access_local_write : Access
access_local_write = record { local_write = true; remote_write = false; remote_read = false }

-- `struct rdma_conn_param`, the fields that are ever set.
pub record ConnParam : Type 0 where
  pub initiator_depth : ℕ
  pub responder_resources : ℕ
  pub rnr_retry_count : ℕ

-- `memset(params, 0, sizeof(*params))`.
abbrev pub zero_conn_param : ConnParam
zero_conn_param = record { initiator_depth = 0; responder_resources = 0; rnr_retry_count = 0 }

pub data QpType : Type 0 where
  qpt_rc qpt_other : QpType

-- `struct ibv_qp_init_attr`.
pub record QpAttr : Type 0 where
  pub send_cq : ℕ
  pub recv_cq : ℕ
  pub qp_type : QpType
  pub max_send_wr : ℕ
  pub max_recv_wr : ℕ
  pub max_send_sge : ℕ
  pub max_recv_sge : ℕ

pub data WrOpcode : Type 0 where
  wr_send wr_rdma_write wr_rdma_read wr_rdma_write_with_imm : WrOpcode

-- `struct ibv_sge`.
pub record Sge : Type 0 where
  pub addr : ℕ
  pub length : ℕ
  pub lkey : ℕ

-- `struct ibv_send_wr`; `sg_list` is empty for `num_sge = 0`.
pub record SendWr : Type 0 where
  pub wr_id : ℕ
  pub opcode : WrOpcode
  pub sg_list : Option Sge
  pub signaled : Bool
  pub imm_data : ℕ
  pub remote_addr : ℕ
  pub rkey : ℕ

-- `struct ibv_recv_wr`.
pub record RecvWr : Type 0 where
  pub wr_id : ℕ
  pub sg_list : Option Sge

pub data WcOpcode : Type 0 where
  wc_send wc_rdma_write wc_rdma_read wc_recv wc_recv_rdma_with_imm wc_other : WcOpcode

-- `struct ibv_wc`, the fields that are read; `success` is `status == IBV_WC_SUCCESS`.
pub record Wc : Type 0 where
  pub wr_id : ℕ
  pub success : Bool
  pub opcode : WcOpcode
  pub imm_data : ℕ

-- `enum rdma_cm_event_type`, as far as a program names its members.
pub data EventType : Type 0 where
  addr_resolved route_resolved connect_request established disconnected other_event : EventType

-- `struct rdma_cm_event`.
pub record Event : Type 0 where
  pub event : EventType
  pub id : ℕ

-- What `malloc` and `posix_memalign` are asked for.
pub data Block : Type 0 where
  context_struct connection_struct message_struct : Block
  region : ℕ → Block

-- The texts that a handler writes into a region.
pub data Greeting : Type 0 where
  from_active from_passive : Greeting

pub data Call : Type 0 where
  malloc memalign : Block → Call
  free : ℕ → Call
  alloc_pd create_comp_channel : ℕ → Call
  create_cq : ℕ → ℕ → ℕ → Call
  req_notify_cq : ℕ → Call
  pthread_create : Call
  create_qp : ℕ → ℕ → QpAttr → Call
  destroy_qp destroy_id destroy_event_channel : ℕ → Call
  reg_mr : ℕ → ℕ → ℕ → Access → Call
  dereg_mr : ℕ → Call
  post_send : ℕ → SendWr → Call
  post_recv : ℕ → RecvWr → Call
  resolve_route : ℕ → ℕ → Call
  connect accept : ℕ → ConnParam → Call
  disconnect : ℕ → Call
  ack_cm_event : Event → Call
  get_cq_event : ℕ → Call
  ack_cq_events : ℕ → ℕ → Call
  getaddrinfo freeaddrinfo create_event_channel : Call
  create_id : ℕ → Call
  resolve_addr : ℕ → ℕ → Call
  bind_addr : ℕ → ℕ → Call
  listen : ℕ → ℕ → Call
  sprintf_greeting : ℕ → Greeting → Call
  print_region : ℕ → Call
  open_file : List ℕ → Call
  read_file : ℕ → ℕ → Call
  write_file : ℕ → List ℕ → Call
  close_file : ℕ → Call

-- The libraries: the answer to a call, given all calls before it, and the fields of their objects.
pub record Verbs : Type 0 where
  pub answer : Log Call → Call → ℕ
  -- `wc->opcode & IBV_WC_RECV`
  pub recv_bit : WcOpcode → Bool
  -- the identifier that `rdma_create_id` stores
  pub created_id : Log Call → ℕ
  -- `id->qp`, `id->verbs`
  pub qp_of : ℕ → ℕ
  pub verbs_of : ℕ → ℕ
  -- `mr->lkey`, `mr->rkey`, `mr->addr`
  pub mr_lkey : ℕ → ℕ
  pub mr_rkey : ℕ → ℕ
  pub mr_addr : ℕ → ℕ
  pub size_of_message : ℕ
  -- `read`, from the bytes of the file that are still unread and the most that is asked for
  pub read_size : Log Call → List ℕ → ℕ → ℕ
  pub htonl : ℕ → ℕ
  pub ntohl : ℕ → ℕ

-- -1 as the bit pattern of a 64-bit `ssize_t`; a 32-bit `int` is written with its sign extended.
abbrev pub minus_one : ℕ
minus_one = 2 ^ 64 - 1

-- A store: what each address holds.
abbrev pub update {ℓ} : {A : Type ℓ} → (ℕ → A) → ℕ → A → ℕ → A
update f p a q = if p == q then a else f q

-- The queue pair takes every request.
pub record Posts (v : Verbs) : Type 0 where
  pub sends : (log : Log Call) (qp : ℕ) (wr : SendWr) → v.answer log (post_send qp wr) ≡ 0
  pub receives : (log : Log Call) (qp : ℕ) (wr : RecvWr) → v.answer log (post_recv qp wr) ≡ 0

pub update_self {ℓ} : {A : Type ℓ} (f : ℕ → A) (p : ℕ) (a : A) → update f p a p ≡ a
update_self f p a = ap (λ b. if b then a else f p) (==_refl p)
