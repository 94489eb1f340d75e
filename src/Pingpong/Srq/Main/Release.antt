-- ===== src/Pingpong/Srq/Main/Release.antt =====
-- What srq_pingpong.c holds at the end of its `main`.
use cs594_dcn_f.Prelude.{
  ℕ, ◌≡◌, refl, Bool, true, false, Option, some, List, [], ◌∷◌, ◌==◌, if◌then◌else◌,
}
use cs594_dcn_f.Effects.{
  World, Outcome, done, stop, exit_failure, fault, hung, jump, Log, ◌>>=◌, ◌>>◌, pure, get, put,
  call_,
}
use cs594_dcn_f.Pingpong.Api.{Kind, pending_array, dest_memory, Call, Device, acquire, release}
use cs594_dcn_f.Pingpong.Context.Resources.{Held, held, give_back_head}
use cs594_dcn_f.Pingpong.Context.Close.{Closed}
use cs594_dcn_f.Pingpong.Srq.Context.{in_order, pp_close_ctx}
use cs594_dcn_f.Pingpong.Srq.Context.Balance.{everything}
use cs594_dcn_f.Pingpong.Srq.Context.Closing.{Apart, pp_close_ctx-Closes}
use cs594_dcn_f.Pingpong.Srq.Loop.{nothing_pending, SrqRun, num_qp, SrqCounters, SrqWc, L}
use cs594_dcn_f.Pingpong.Srq.Loop.Begin.{length-nothing_pending}
use cs594_dcn_f.Pingpong.Srq.Main.{
  landed, attempt, out_ctx, out_my_dest, out_rem_dest, out_pending, ping_pong, run_main,
}
use cs594_dcn_f.Pingpong.Srq.Main.Keeps.{Sound, ping_pong-Keeps}

-- `main` returns with nothing held, or waits for ever for completions.
abbrev pub Released : Outcome SrqCounters Call ℕ → Type 0
Released (done ret w) = held w.log ≡ some []
Released (stop hung w) = Unit
Released (stop fault w) = ⊥
Released (stop exit_failure w) = ⊥
Released (stop jump w) = ⊥

module _ (d : Device) (run : SrqRun)
    (releases : (log : Log Call) (k : Kind) (p : ℕ) → d.answer log (release k p) ≡ 0)
    (apart : Apart (in_order run.ctx)) where
  abbrev Frees : L ℕ → Held → Type 0
  Frees m hs = (w : World SrqCounters Call) → held w.log ≡ some hs → Released (m w)

  release-Frees :
      (k : Kind) (p : ℕ) (m : L ℕ) (hs : Held)
      → Frees m hs
      → Frees (call_ d.answer (release k p) >> m) ((k, p) ∷ hs)
  release-Frees k p m hs rest w e =
      rest (record { state = w.state; log = (release k p, d.answer w.log (release k p)) ∷ w.log })
        (rw e (give_back_head k p hs))

  out_ctx-Frees : (ret : ℕ) → Frees (out_ctx d run ret) (everything run.ctx)
  unfolding out_ctx
  out_ctx-Frees ret w e =
      go (pp_close_ctx d run.ctx (record { state = tt; log = w.log }))
        (pp_close_ctx-Closes d releases run.ctx (record { state = tt; log = w.log }) apart e)
    where
      lifted : Outcome (Unit {0}) Call ℕ → Outcome SrqCounters Call ℕ
      lifted o = elim o [
        | done a w' ↦ done a (record { state = w.state; log = w'.log })
        | stop r w' ↦ stop r (record { state = w.state; log = w'.log })
      ]

      go :
          (o : Outcome (Unit {0}) Call ℕ)
          → Closed o
          → Released (elim (lifted o) as (λ _. Outcome SrqCounters Call ℕ) [
            | done r w' ↦ (if r == 0 then pure ret else pure 1) w'
            | stop r w' ↦ stop r w'
          ])
      go (done r w') h = rw (h.0) h.1
      go (stop r w') h = absurd h

  module _ (my_dest rem_dest : ℕ) where
    abbrev pub with_my_dest : Held
    with_my_dest = (dest_memory, my_dest) ∷ everything run.ctx

    abbrev pub with_rem_dest : Held
    with_rem_dest = (dest_memory, rem_dest) ∷ with_my_dest

    out_my_dest-Frees : (ret : ℕ) → Frees (out_my_dest d run my_dest ret) with_my_dest
    unfolding out_my_dest
    out_my_dest-Frees ret =
        release-Frees dest_memory my_dest (out_ctx d run ret) (everything run.ctx)
          (out_ctx-Frees ret)

    out_rem_dest-Frees : (ret : ℕ) → Frees (out_rem_dest d run my_dest rem_dest ret) with_rem_dest
    unfolding out_rem_dest
    out_rem_dest-Frees ret =
        release-Frees dest_memory rem_dest (out_my_dest d run my_dest ret) with_my_dest
          (out_my_dest-Frees ret)

    out_pending-Frees :
        (p ret : ℕ)
        → Frees (out_pending d run my_dest rem_dest p ret) ((pending_array, p) ∷ with_rem_dest)
    unfolding out_pending
    out_pending-Frees p ret =
        release-Frees pending_array p (out_rem_dest d run my_dest rem_dest ret) with_rem_dest
          (out_rem_dest-Frees ret)

    -- Behind the exchange, however it has ended.
    attempt-Frees :
        (p : ℕ) (m : L (Unit {0})) (w : World SrqCounters Call)
        → Sound d run ((pending_array, p) ∷ with_rem_dest) (m w)
        → Released ((attempt m >>= out_pending d run my_dest rem_dest p) w)
    attempt-Frees p m w h = go (m w) h
      where
        next : Outcome SrqCounters Call (Unit {0}) → Outcome SrqCounters Call ℕ
        next o = elim o [ done u w' ↦ done 0 w' | stop r w' ↦ landed r w' ]

        go :
            (o : Outcome SrqCounters Call (Unit {0}))
            → Sound d run ((pending_array, p) ∷ with_rem_dest) o
            → Released (elim (next o) as (λ _. Outcome SrqCounters Call ℕ) [
              | done ret w' ↦ out_pending d run my_dest rem_dest p ret w'
              | stop r w' ↦ stop r w'
            ])
        go (done u w') ok = out_pending-Frees p 0 w' ok.0
        go (stop jump w') ok = out_pending-Frees p 1 w' ok.0
        go (stop hung w') ok = tt
        go (stop fault w') ok = absurd ok
        go (stop exit_failure w') ok = absurd ok

    -- Whatever completions come, and wherever a call fails, `main` once connected either waits for ever for a completion or
    -- returns with all given back, each thing once: the array of pending bits, both arrays of destinations, and the
    -- context with its queue pairs. No index leaves its array. The releases succeed, and the queue pairs have addresses of
    -- their own.
    pub run_main-Released :
        (client : Bool) (polls : List (Option (List SrqWc))) (w : World SrqCounters Call)
        → held w.log ≡ some with_rem_dest
        → Released (run_main d run client polls my_dest rem_dest w)
    unfolding run_main
    run_main-Released client polls w e = go (p == 0) refl
      where
        p : ℕ
        p = d.answer w.log (acquire pending_array)

        w₁ : World SrqCounters Call
        w₁ = record { state = w.state; log = (acquire pending_array, p) ∷ w.log }

        w₂ : World SrqCounters Call
        w₂ = record w₁ { state = record w₁.state { pending = nothing_pending (num_qp run) } }

        go :
            (b : Bool)
            → (p == 0) ≡ b
            → Released (
                (if b
                    then out_rem_dest d run my_dest rem_dest 1
                    else (get >>= λ s.
                        put (record s { pending = nothing_pending (num_qp run) })
                        >> (attempt (ping_pong d run client polls)
                            >>= out_pending d run my_dest rem_dest p)))
                  w₁)
        go true t = out_rem_dest-Frees 1 w₁ (rw e (rw t refl))
        go false t = attempt-Frees p (ping_pong d run client polls) w₂ (
            ping_pong-Keeps d run ((pending_array, p) ∷ with_rem_dest) client polls w₂
              (rw e (rw t refl), length-nothing_pending (num_qp run)))
