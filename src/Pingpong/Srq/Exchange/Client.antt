-- ===== src/Pingpong/Srq/Exchange/Client.antt =====
-- The client of srq_pingpong.c's exchange of addresses.
use cs594_dcn_f.Prelude.{ℕ}
use cs594_dcn_f.Effects.{Outcome}
use cs594_dcn_f.Pingpong.Api.{Call}
use cs594_dcn_f.Pingpong.Context.Resources.{Held}
use cs594_dcn_f.Pingpong.Dest.{Draft}
use cs594_dcn_f.Pingpong.Exchange.{Host}
use cs594_dcn_f.Pingpong.Srq.Exchange.{Answers, client_scan}
use cs594_dcn_f.Pingpong.Srq.Exchange.Balance.{BadMessage, Listed}

module _ (h : Host) (fuel num_qp : ℕ) (hs : Held) where
  abbrev Good : Outcome (Unit {0}) Call (Answers Draft) → Type 0
  Good = Listed h (client_scan h) (BadMessage h (client_scan h)) num_qp hs
