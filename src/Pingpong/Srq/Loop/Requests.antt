-- ===== src/Pingpong/Srq/Loop/Requests.antt =====
-- The array of pending bits of srq_pingpong.c, and the invariant of its counters.
use cs594_dcn_f.Prelude.{
  ℕ, zero, suc, ◌+◌, ◌≤◌, ◌<◌, ◌≡◌, refl, ap, Bool, true, false, ◌&&◌, none, some, List, [], ◌∷◌,
  length, ◌==◌, if◌then◌else◌, arith,
}
use cs594_dcn_f.Effects.{World, Log}
use cs594_dcn_f.Pingpong.Api.{Call, post_srq_recv, post_send}
use cs594_dcn_f.Pingpong.Loop.{pingpong_send_wrid}
use cs594_dcn_f.Pingpong.Loop.Credit.{bit}
use cs594_dcn_f.Pingpong.Srq.Loop.{SrqRun, num_qp, Pending, SrqCounters, element, set_element}

-- How many sends the queue pairs have taken, and how many receives the shared queue.
abbrev pub sends : Log Call → ℕ
sends [] = 0
sends ((post_send qp id sge, r) ∷ log) = if r == 0 then suc (sends log) else sends log
sends (_ ∷ log) = sends log

abbrev pub receives : Log Call → ℕ
receives [] = 0
receives ((post_srq_recv srq id sge, r) ∷ log) = if r == 0 then suc (receives log) else receives log
receives (_ ∷ log) = receives log

-- On how many queue pairs a send is pending.
abbrev pub busy : List Pending → ℕ
busy [] = 0
busy (p ∷ ps) = bit p.pending_send + busy ps

pub busy-length : (ps : List Pending) → busy ps ≤ length ps
busy-length [] = omega arith
busy-length (p ∷ ps) = ground (arith, busy-length ps)

pub busy-set_element :
    (i : ℕ) (p q : Pending) (ps : List Pending)
    → element i ps ≡ some p
    → busy (set_element i q ps) + bit p.pending_send ≡ busy ps + bit q.pending_send
busy-set_element i p q [] e = cc
busy-set_element zero p q (x ∷ ps) e =
    let same : bit x.pending_send ≡ bit p.pending_send =
      ap (λ o. elim o [ none ↦ 0 | some y ↦ bit y.pending_send ]) e in
    omega arith
busy-set_element (suc i) p q (x ∷ ps) e = omega (arith, busy-set_element i p q ps e)

pub length-set_element :
    (i : ℕ) (q : Pending) (ps : List Pending) → length (set_element i q ps) ≡ length ps
length-set_element i q [] = refl
length-set_element zero q (x ∷ ps) = refl
length-set_element (suc i) q (x ∷ ps) = omega (arith, length-set_element i q ps)

pub element-set_element :
    (i : ℕ) (p q : Pending) (ps : List Pending)
    → element i ps ≡ some p
    → element i (set_element i q ps) ≡ some q
element-set_element i p q [] e = cc
element-set_element zero p q (x ∷ ps) e = refl
element-set_element (suc i) p q (x ∷ ps) e = element-set_element i p q ps e

-- Every send is counted in `scnt` or pending on its queue pair, and there are fewer than `iters + num_qp` of them; every
-- receive is counted in `rcnt` or in `routs`; there is a receive for each queue pair, and at most `rx_depth`.
pub record Inv (run : SrqRun) (w : World SrqCounters Call) : Type 0 where
  pub sent : sends w.log ≡ w.state.scnt + busy w.state.pending
  pub sends_few : sends w.log < run.iters + num_qp run
  pub received : receives w.log ≡ w.state.rcnt + w.state.routs
  pub enough_left : num_qp run ≤ w.state.routs
  pub few_left : w.state.routs ≤ run.rx_depth
  pub as_many : length w.state.pending ≡ num_qp run

-- The same between the `switch` and the clearing of the bit: `k` sends are counted twice.
pub record Between (run : SrqRun) (k : ℕ) (w : World SrqCounters Call) : Type 0 where
  pub sent : sends w.log + k ≡ w.state.scnt + busy w.state.pending
  pub sends_few : sends w.log < run.iters + num_qp run
  pub received : receives w.log ≡ w.state.rcnt + w.state.routs
  pub enough_left : num_qp run ≤ w.state.routs
  pub few_left : w.state.routs ≤ run.rx_depth
  pub as_many : length w.state.pending ≡ num_qp run

-- The same, with the pending bits as they were.
abbrev pub Counted : SrqRun → ℕ → World SrqCounters Call → World SrqCounters Call → Type 0
Counted run k w w' = Between run k w' × (w'.state.pending ≡ w.state.pending)

-- What posting receives leaves alone, and what it adds.
abbrev pub Posted : World SrqCounters Call → ℕ → ℕ → ℕ → World SrqCounters Call → Type 0
Posted w n i more w' =
    (w'.state ≡ w.state)
    × (sends w'.log ≡ sends w.log)
    × (receives w'.log + i ≡ receives w.log + more)
    × (more ≤ i + n)

abbrev pub Never : World SrqCounters Call → Type 0
Never w = ⊥

abbrev pub Anything : World SrqCounters Call → Type 0
Anything w = Unit

pub ==→eq : (r : ℕ) → (r == 0) ≡ true → r ≡ 0
==→eq r e = ground arith

pub ==→same : (wr_id : ℕ) → (wr_id == pingpong_send_wrid) ≡ true → wr_id ≡ pingpong_send_wrid
==→same wr_id e = ground arith

pub and_true : (b : Bool) → bit b ≡ 0 + bit (b && true)
and_true true = refl
and_true false = refl
