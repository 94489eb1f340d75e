-- ===== src/Pingpong/Srq/Exchange/Server.antt =====
-- The server of srq_pingpong.c's exchange of addresses.
use cs594_dcn_f.Prelude.{ℕ, ◌≡◌, some, List, ◌∷◌}
use cs594_dcn_f.Effects.{World, Outcome, done, stop, exit_failure, fault, hung, jump}
use cs594_dcn_f.Pingpong.Api.{Device, connection, dest_memory, Call}
use cs594_dcn_f.Pingpong.Context.{P}
use cs594_dcn_f.Pingpong.Context.Resources.{Held, held}
use cs594_dcn_f.Pingpong.Dest.{PingpongDest}
use cs594_dcn_f.Pingpong.Exchange.{Host}
use cs594_dcn_f.Pingpong.Srq.Exchange.{Answers, server_scan}
use cs594_dcn_f.Pingpong.Srq.Exchange.Balance.{Listed}

-- Connecting the queue pairs acquires and releases nothing; it may read an array out of bounds.
abbrev Quiet : Held → Outcome (Unit {0}) Call ℕ → Type 0
Quiet hs (done r w) = held w.log ≡ some hs
Quiet hs (stop fault w) = Unit
Quiet hs (stop hung w) = ⊥
Quiet hs (stop exit_failure w) = ⊥
Quiet hs (stop jump w) = ⊥

module _ (d : Device) (hs : Held) where
  abbrev Stays : P ℕ → Type 0
  Stays m = (w : World (Unit {0}) Call) → held w.log ≡ some hs → Quiet hs (m w)

module _ (h : Host) (fuel num_qp : ℕ) (hs : Held) where
  abbrev Good : Outcome (Unit {0}) Call (Answers PingpongDest) → Type 0
  Good = Listed h (server_scan h) Unit num_qp hs

  module _ (c p : ℕ) (dests : List PingpongDest) where
    abbrev both : Held
    both = (dest_memory, p) ∷ (connection, c) ∷ hs
