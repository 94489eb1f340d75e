-- ===== src/Pingpong/Srq/Main.antt =====
-- `main` of examples/libibverbs-examples/srq_pingpong.c once the two sides are connected, with the labels that it goes
-- through at its end. The device list, which stays to the last, and the two readings of the clock are left out.
pub mod Keeps
pub mod Release
use cs594_dcn_f.Prelude.{
  ℕ, zero, suc, Bool, true, false, Option, none, some, List, [], ◌∷◌, ◌==◌, if◌then◌else◌,
}
use cs594_dcn_f.Effects.{
  M, World, Outcome, done, stop, Stop, exit_failure, fault, hung, jump, ◌>>=◌, ◌>>◌, pure, get, put,
  call, call_,
}
use cs594_dcn_f.Pingpong.Api.{Kind, pending_array, dest_memory, Call, Device, acquire, release}
use cs594_dcn_f.Pingpong.Context.{P}
use cs594_dcn_f.Pingpong.Srq.Context.{pp_close_ctx}
use cs594_dcn_f.Pingpong.Srq.Loop.{
  SrqRun, num_qp, Pending, SrqCounters, SrqWc, L, nothing_pending, allocate, start, exchange,
  acknowledge,
}

-- A function that does not use the counters.
abbrev pub lift : {A : Type 0} → P A → L A
lift m w = elim (m (record { state = tt; log = w.log })) [
  | done a w' ↦ done a (record { state = w.state; log = w'.log })
  | stop r w' ↦ stop r (record { state = w.state; log = w'.log })
]

-- `ret` at the label to which a `goto` leads, 1, or behind the code that has none, 0.
abbrev pub landed : Stop → World SrqCounters Call → Outcome SrqCounters Call ℕ
landed jump w = done 1 w
landed r w = stop r w

abbrev pub attempt : L (Unit {0}) → L ℕ
attempt m w = elim (m w) [ done u w' ↦ done 0 w' | stop r w' ↦ landed r w' ]

module _ (d : Device) (run : SrqRun) where
  open d use {answer}

  -- The labels, each of which falls through to the next; the argument is `ret`.
  unfoldable pub out_ctx : ℕ → L ℕ
  out_ctx ret = do r ← lift (pp_close_ctx d run.ctx); (if r == 0 then pure ret else pure 1)

  unfoldable pub out_my_dest : ℕ → ℕ → L ℕ
  out_my_dest my_dest ret = do call_ answer (release dest_memory my_dest); out_ctx ret

  unfoldable pub out_rem_dest : ℕ → ℕ → ℕ → L ℕ
  out_rem_dest my_dest rem_dest ret = do
    call_ answer (release dest_memory rem_dest)
    out_my_dest my_dest ret

  unfoldable pub out_pending : ℕ → ℕ → ℕ → ℕ → L ℕ
  out_pending my_dest rem_dest pending ret = do
    call_ answer (release pending_array pending)
    out_rem_dest my_dest rem_dest ret

  -- The first requests, the loop, and the acknowledgement of its events.
  unfoldable pub ping_pong : Bool → List (Option (List SrqWc)) → L (Unit {0})
  ping_pong client polls = start d run client >> exchange d run polls >> acknowledge d run

  unfoldable pub run_main : Bool → List (Option (List SrqWc)) → ℕ → ℕ → L ℕ
  run_main client polls my_dest rem_dest = do
    pending ← call answer (acquire pending_array)
    (if pending == 0 then out_rem_dest my_dest rem_dest 1 else do
      allocate d run
      ret ← attempt (ping_pong client polls)
      out_pending my_dest rem_dest pending ret)
