-- ===== src/Pingpong/Context/Life.antt =====
-- A context of rc_pingpong.c from `pp_init_ctx` to `pp_close_ctx`, with options that `main` accepts.
use cs594_dcn_f.Prelude.{ℕ, ◌≡◌, ◌∙◌, Bool, false, not, Option, none, some, [], ◌==◌, arith}
use cs594_dcn_f.Effects.{World, Outcome, done, stop, fault, Log}
use cs594_dcn_f.Pingpong.Api.{Kind, Call, release, memcpy_dm, Device}
use cs594_dcn_f.Pingpong.Context.{Options, PingpongContext, pp_init_ctx, pp_close_ctx}
use cs594_dcn_f.Pingpong.Context.Resources.{held}
use cs594_dcn_f.Pingpong.Context.Init.{AllOrNothing, NullRegion, pp_init_ctx-AllOrNothing}
use cs594_dcn_f.Pingpong.Context.Close.{Closed, pp_close_ctx-Closed}
use cs594_dcn_f.Pingpong.Options.{Settings, init_options}
use cs594_dcn_f.Pingpong.Options.Checks.{Accepted}
use cs594_dcn_f.Pingpong.Context.Fits.{AllFit, init_ctx-Makes}

counted-off : (n : ℕ) → n ≡ 0 → not (n == 0) ≡ false
counted-off n e = ground arith

-- The outcome of `pp_init_ctx`, and what becomes of it: with no context nothing is held; a context is closed by
-- `pp_close_ctx` from any later point at which the same is held.
abbrev pub Lives : Device → Options → Outcome (Unit {0}) Call (Option PingpongContext) → Type 0
Lives d o (done none w) = held w.log ≡ some []
Lives d o (done (some c) w) =
    (w' : World (Unit {0}) Call) → held w'.log ≡ held w.log → Closed (pp_close_ctx d o c w')
Lives d o (stop r w) = (r ≡ fault) × NullRegion d o

-- With options that `main` accepts, on a device whose copies to its memory and whose releases succeed: either `pp_init_ctx`
-- faults in its `memset`, where contiguous memory is asked for and a region is given no address, or it
-- returns null with nothing held, or it returns a context from which `pp_close_ctx`, whatever was done in between
-- that left the same things held, returns 0 with nothing held.
pub pp_init_ctx-Lives :
    (d : Device) (signed : Bool) (s : Settings)
    → Accepted signed s
    → ((log : Log Call) → d.answer log memcpy_dm ≡ 0)
    → ((log : Log Call) (k : Kind) (p : ℕ) → d.answer log (release k p) ≡ 0)
    → Lives d (init_options s) (pp_init_ctx d (init_options s) (record { state = tt; log = [] }))
unfolding init_options
pp_init_ctx-Lives d signed s ok copies releases =
    go (pp_init_ctx d o (record { state = tt; log = [] }))
      (pp_init_ctx-AllOrNothing d o (λ _. copies))
      (init_ctx-Makes d o ok.not_odp (λ on. counted-off s.use_contiguous_mr (ok.not_contiguous on))
        (record { state = tt; log = [] }))
  where
    o : Options
    o = init_options s

    go :
        (r : Outcome (Unit {0}) Call (Option PingpongContext))
        → AllOrNothing d o r
        → AllFit o r
        → Lives d o r
    go (done none w) all fits = all
    go (done (some c) w) all fits =
        λ w' same. pp_close_ctx-Closed d releases o c w' fits (same ∙ all)
    go (stop r w) all fits = all
