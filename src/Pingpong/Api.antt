-- ===== src/Pingpong/Api.antt =====
-- What rc_pingpong.c and srq_pingpong.c of examples/libibverbs-examples use of libibverbs and the C library. None of that
-- code is in the repository: the answers to the calls are a parameter.
use cs594_dcn_f.Prelude.{ℕ, Bool, List}
use cs594_dcn_f.Effects.{Log}

-- The things that the program acquires and gives back. `service` is the text that `asprintf` allocates, and
-- `connection` the socket that `accept` gives; a socket's descriptor is counted from 1.
pub data Kind : Type 0 where
  ctx_memory buffer device comp_channel protection_domain device_memory memory_region : Kind
  completion_queue queue_pair : Kind
  service address_list socket connection dest_memory : Kind
  shared_receive_queue qp_array pending_array : Kind

-- `struct ibv_sge`.
pub record Sge : Type 0 where
  pub addr : ℕ
  pub length : ℕ
  pub lkey : ℕ

pub data QpState : Type 0 where
  qps_init qps_rtr qps_rts : QpState

-- `struct ibv_exp_qp_attr` at the two calls of `pp_connect_ctx`.
pub record ConnectAttr : Type 0 where
  pub qp_state : QpState
  pub path_mtu : ℕ
  pub dest_qp_num : ℕ
  pub rq_psn : ℕ
  pub max_dest_rd_atomic : ℕ
  pub min_rnr_timer : ℕ
  pub is_global : Bool
  pub dlid : ℕ
  pub sl : ℕ
  pub port_num : ℕ
  pub hop_limit : ℕ
  pub dgid : List ℕ
  pub sgid_index : ℕ
  pub timeout : ℕ
  pub retry_cnt : ℕ
  pub rnr_retry : ℕ
  pub sq_psn : ℕ
  pub max_rd_atomic : ℕ

pub data Call : Type 0 where
  -- The answer is the address of what was acquired, 0 if that failed.
  acquire : Kind → Call
  -- The release of what stands at an address; the answer is 0 for success.
  release : Kind → ℕ → Call
  -- `ibv_exp_query_device`, `ibv_query_device_ex`, `ibv_exp_memcpy_dm`: 0 for success.
  query_device query_device_ex memcpy_dm : Call
  modify_qp_init : ℕ → Call
  modify_qp : ℕ → ConnectAttr → Bool → Call
  post_recv : ℕ → ℕ → Sge → Call
  -- The same into a shared receive queue.
  post_srq_recv : ℕ → ℕ → Sge → Call
  post_send : ℕ → ℕ → Sge → Call
  post_nop : ℕ → Call
  get_cq_event : ℕ → Call
  req_notify_cq : ℕ → Call
  ack_cq_events : ℕ → ℕ → Call
  set_reuse_addr connect_socket bind_socket listen_socket : ℕ → Call
  -- The bytes of a `write`; the answer is how many were taken.
  write_socket : ℕ → List ℕ → Call
  -- `recv` with `MSG_WAITALL`, or `read`, of at most so many bytes; the answer is how many there were.
  receive : ℕ → ℕ → Call

-- The answers to the calls, given all calls before; what a query of the device has stored: whether it
-- does on-demand paging for sends and receives of an RC queue pair (by either interface), and
-- whether it has device memory; and fields of objects that the library owns.
pub record Device : Type 0 where
  pub answer : Log Call → Call → ℕ
  pub upstream_odp : Log Call → Bool
  pub exp_odp : Log Call → Bool
  pub has_dm : Log Call → Bool
  pub mr_lkey : ℕ → ℕ
  pub mr_addr : ℕ → ℕ
  -- the queue that `ibv_get_cq_event` stores
  pub event_cq : Log Call → ℕ
