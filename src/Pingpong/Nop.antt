-- ===== src/Pingpong/Nop.antt =====
-- `send_nop` of examples/libibverbs-examples/rc_pingpong.c, by which `main` tries a no-operation before the exchange.
use cs594_dcn_f.Prelude.{
  ℕ, ◌-◌, ◌^◌, ◌≡◌, ◌≢◌, refl, Bool, true, false, not, ◌&&◌, List, [], ◌∷◌, ◌++◌, leb, ◌==◌,
  if◌then◌else◌, arith,
}
use cs594_dcn_f.Effects.{World, Gives, hung, ◌>>=◌, halt, pure, call}
use cs594_dcn_f.Pingpong.Api.{Call, post_nop, Device}
use cs594_dcn_f.Pingpong.Context.{P}

-- What `ibv_exp_poll_cq` returns, an `int` as its bit pattern, and the status in `wc` behind it.
pub record Poll : Type 0 where
  pub n : ℕ
  pub status : ℕ

-- `IBV_WC_SUCCESS`.
abbrev pub wc_success : ℕ
wc_success = 0

-- -1, as an `int`, and the test for such numbers.
abbrev pub minus_one : ℕ
minus_one = 2 ^ 32 - 1

abbrev pub below_zero : ℕ → Bool
below_zero n = leb (2 ^ 31) n

-- The loop over the polls, and the test behind it. After the last poll the program polls for ever.
unfoldable pub poll_nop : List Poll → P ℕ
poll_nop [] = halt hung
poll_nop (poll ∷ polls) =
    let rest = poll_nop polls in
    if below_zero poll.n
    then pure minus_one
    else if poll.n == 0
    then rest
    else if poll.status == wc_success
    then pure 0
    else pure minus_one

unfoldable pub send_nop : Device → ℕ → List Poll → P ℕ
send_nop d qp polls = do
  err ← call d.answer (post_nop qp)
  (if err == 0 then poll_nop polls else pure err)

-- Polls that bring nothing.
abbrev pub AllIdle : List Poll → Type 0
AllIdle [] = Unit
AllIdle (poll ∷ polls) = (poll.n ≡ 0) × AllIdle polls

module _ (poll : Poll) (later : List Poll) (some_ : poll.n ≢ 0) where
  poll_nop-first :
      (idle : List Poll) (w : World (Unit {0}) Call)
      → AllIdle idle
      → Gives
          (poll_nop (idle ++ poll ∷ later) w)
          (λ r w'. (r == 0) ≡ (not (below_zero poll.n) && (poll.status == wc_success)))
          (λ w'. ⊥)
  unfolding poll_nop
  poll_nop-first [] w t = ground arith
  poll_nop-first (p ∷ ps) w t = rw (t.0, poll_nop) (poll_nop-first ps w t.1)

  -- Of polls that begin with some that return 0 and go on with one that does not, that one decides: `send_nop` returns,
  -- whatever there is to poll behind it, and it returns 0 exactly if the request was taken, that poll has not failed,
  -- and the status of its completion is a success.
  pub send_nop-Decided :
      (d : Device) (qp : ℕ) (idle : List Poll) (w : World (Unit {0}) Call)
      → AllIdle idle
      → Gives
          (send_nop d qp (idle ++ poll ∷ later) w)
          (λ r w'. (r == 0) ≡ (
            (d.answer w.log (post_nop qp) == 0)
            && (not (below_zero poll.n) && (poll.status == wc_success))))
          (λ w'. ⊥)
  unfolding send_nop
  send_nop-Decided d qp idle w none_ = go (err == 0) refl
    where
      err : ℕ
      err = d.answer w.log (post_nop qp)

      w' : World (Unit {0}) Call
      w' = record { state = w.state; log = (post_nop qp, err) ∷ w.log }

      go :
          (b : Bool)
          → (err == 0) ≡ b
          → Gives {A = ℕ}
              ((if b then poll_nop (idle ++ poll ∷ later) else pure err) w')
              (λ r w''. (r == 0) ≡ (b && (not (below_zero poll.n) && (poll.status == wc_success))))
              (λ w''. ⊥)
      go true t = poll_nop-first idle w' none_
      go false t = t
