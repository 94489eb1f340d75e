-- ===== src/Pingpong/Srq/Exchange/Balance.antt =====
-- What `pp_client_exch_dest` and `pp_server_exch_dest` of srq_pingpong.c hold, and what they have read, when they return.
use cs594_dcn_f.Prelude.{
  ℕ, zero, suc, ◌+◌, ◌-◌, ◌<◌, ◌≡◌, refl, ◌⊎◌, Bool, true, false, Option, none, some, List, [], ◌∷◌,
  ◌++◌, length, length-append, take, ltb, ◌==◌, if◌then◌else◌, arith,
}
use cs594_dcn_f.Effects.{
  World, Outcome, done, stop, exit_failure, fault, hung, jump, Log, ◌>>=◌, call, stored, deref,
}
use cs594_dcn_f.Pingpong.Api.{dest_memory, Call, release, write_socket, receive}
use cs594_dcn_f.Pingpong.Context.{P}
use cs594_dcn_f.Pingpong.Context.Resources.{Held, held, called}
use cs594_dcn_f.Pingpong.Dest.{PingpongDest, dest_message, message_size}
use cs594_dcn_f.Pingpong.Exchange.{Host}
use cs594_dcn_f.Pingpong.Exchange.Steps.{Does, call-Does, branch-Does}
use cs594_dcn_f.Pingpong.Srq.Exchange.{Answers, below_zero, read_msg, read_dests, write_dests}

-- The newest call is a read that has failed.
abbrev pub ReadFailed : Log Call → Type 0
ReadFailed ((receive s k, r) ∷ log) = below_zero r ≡ true
ReadFailed _ = ⊥

-- The same before a release.
abbrev pub ReleasedAfter : Log Call → Type 0
ReleasedAfter ((release k p, r) ∷ log) = ReadFailed log
ReleasedAfter _ = ⊥

-- A text that consists of what reads have brought, piece by piece.
pub data FromReads (h : Host) : List ℕ → Type 0 where
  nothing_read : FromReads h []
  read_more :
      (text : List ℕ)
      → FromReads h text
      → (log : Log Call) (r : ℕ) → FromReads h (text ++ take r (h.received log))

-- An address that `scan` makes of a message which has been read.
abbrev pub IsScanned : {D S : Type 0} → (h : Host) → (S → List ℕ → Option (D × S)) → D → Type 0
IsScanned {S = S} h scan dest =
    (gid : S) × (msg : List ℕ) × FromReads h msg × (gid' : S) × (scan gid msg ≡ some (dest, gid'))

abbrev pub AllScanned :
    {D S : Type 0} → (h : Host) → (S → List ℕ → Option (D × S)) → List D → Type 0
AllScanned h scan [] = Unit
AllScanned h scan (dest ∷ dests) = IsScanned h scan dest × AllScanned h scan dests

-- A message has been read of which `scan` can make nothing.
abbrev pub BadMessage : {D S : Type 0} → (h : Host) → (S → List ℕ → Option (D × S)) → Type 0
BadMessage {S = S} h scan = (gid : S) × (msg : List ℕ) × FromReads h msg × (scan gid msg ≡ none)

-- The outcome of an exchange that began with `hs`, for `num_qp` queue pairs: NULL with no more than that; or an array, with its
-- memory, of one element per queue pair, or of fewer, if a read has failed, each made by `scan` of a message
-- that has been read. The program may also read for ever, or have undefined behaviour, if `Faulty`.
abbrev pub Listed :
    {D S : Type 0}
    → (h : Host) → (S → List ℕ → Option (D × S))
    → Type 0
    → ℕ
    → Held
    → Outcome (Unit {0}) Call (Answers D)
    → Type 0
Listed h scan Faulty num_qp hs (done none w) = held w.log ≡ some hs
Listed h scan Faulty num_qp hs (done (some (p, dests)) w) =
    (held w.log ≡ some ((dest_memory, p) ∷ hs))
    × ((length dests ≡ num_qp) ⊎ ((length dests < num_qp) × ReleasedAfter w.log))
    × AllScanned h scan dests
Listed h scan Faulty num_qp hs (stop hung w) = Unit
Listed h scan Faulty num_qp hs (stop fault w) = Faulty
Listed h scan Faulty num_qp hs (stop exit_failure w) = ⊥
Listed h scan Faulty num_qp hs (stop jump w) = ⊥

AllScanned-append :
    {D S : Type 0} (h : Host) (scan : S → List ℕ → Option (D × S)) (dests : List D) (dest : D)
    → AllScanned h scan dests
    → IsScanned h scan dest
    → AllScanned h scan (dests ++ dest ∷ [])
AllScanned-append h scan [] dest all one = (one, tt)
AllScanned-append h scan (d ∷ dests) dest all one =
    (all.0, AllScanned-append h scan dests dest all.1 one)

module _ {B : Type 0} (h : Host) (Good : Outcome (Unit {0}) Call B → Type 0)
    (forever : (w : World (Unit {0}) Call) → Good (stop hung w)) where
  -- What follows a failed read.
  abbrev pub Fails : P B → Held → Type 0
  Fails m hs = (w : World (Unit {0}) Call) → held w.log ≡ some hs → ReadFailed w.log → Good (m w)

  pub read_msg-Does :
      (fuel s : ℕ) (failed : P B) (next : List ℕ → P B) (hs : Held)
      → Fails failed hs
      → ((text : List ℕ) → FromReads h text → Does h.device Good (next text) hs)
      → (n : ℕ) (text : List ℕ) → FromReads h text
      → Does h.device Good (read_msg h fuel s failed next n text) hs
  unfolding read_msg
  read_msg-Does zero s failed next hs fails rest n text from w e = forever w
  read_msg-Does (suc fuel) s failed next hs fails rest n text from w e =
      turn (ltb n message_size) (λ r.
        read_msg-Does fuel s failed next hs fails rest (n + r) (text ++ take r (h.received w₁.log))
          (read_more text from w₁.log r) w₁)
    where
      k : ℕ
      k = message_size - n

      w₁ : World (Unit {0}) Call
      w₁ = called h.device (receive s k) w

      Rest : ℕ → Type 0
      Rest r =
          held w₁.log ≡ some hs
          → Good (read_msg h fuel s failed next (n + r) (text ++ take r (h.received w₁.log)) w₁)

      received :
          (r : ℕ) (b : Bool)
          → (b ≡ true → ReadFailed w₁.log)
          → Rest r
          → Good (
              (if b
                  then failed
                  else read_msg h fuel s failed next (n + r) (text ++ take r (h.received w₁.log)))
                w₁)
      received r true bad ih = fails w₁ (rw e refl) (bad refl)
      received r false bad ih = ih (rw e refl)

      turn :
          (b : Bool)
          → ((r : ℕ) → Rest r)
          → Good (
              (if b
                  then (call h.device.answer (receive s k) >>= λ r. stored h.received >>= λ bytes.
                      if below_zero r
                      then failed
                      else read_msg h fuel s failed next (n + r) (text ++ take r bytes))
                  else next text)
                w)
      turn true ih =
          let r = h.device.answer w.log (receive s k) in received r (below_zero r) (λ t. t) (ih r)
      turn false ih = rest text from w e

  pub read_dests-Does :
      {D S : Type 0} (scan : S → List ℕ → Option (D × S)) (fuel s total : ℕ)
      (failed next : List D → P B) (hs : Held)
      → (BadMessage h scan → (w : World (Unit {0}) Call) → Good (stop fault w))
      → ((dests : List D)
          → length dests < total
          → AllScanned h scan dests
          → Fails (failed dests) hs)
      → ((dests : List D)
          → length dests ≡ total
          → AllScanned h scan dests
          → Does h.device Good (next dests) hs)
      → (n : ℕ) (gid : S) (dests : List D) → length dests + n ≡ total
      → AllScanned h scan dests
      → Does h.device Good (read_dests h fuel s scan failed next n gid dests) hs
  unfolding read_dests
  read_dests-Does scan fuel s total failed next hs faulty fails rest zero gid dests all made =
      rest dests (omega (arith, all)) made
  read_dests-Does {D} {S} scan fuel s total failed next hs faulty fails rest (suc n) gid dests all
        made =
      read_msg-Does fuel s (failed dests) _ hs (fails dests (omega (arith, all)) made)
        (λ msg from. scanned msg from (scan gid msg) refl (λ r one.
          read_dests-Does scan fuel s total failed next hs faulty fails rest n r.1
            (dests ++ r.0 ∷ []) (omega (arith, all, length-append dests (r.0 ∷ [])))
            (AllScanned-append h scan dests r.0 made one)))
        0 [] nothing_read
    where
      scanned :
          (msg : List ℕ)
          → FromReads h msg
          → (o : Option (D × S)) → scan gid msg ≡ o
          → ((r : D × S)
              → IsScanned h scan r.0
              → Does h.device Good
                  (read_dests h fuel s scan failed next n r.1 (dests ++ r.0 ∷ []))
                  hs)
          → Does h.device Good
              (deref o >>= λ r. read_dests h fuel s scan failed next n r.1 (dests ++ r.0 ∷ []))
              hs
      scanned msg from none e ih = λ w t. faulty (gid, msg, from, e) w
      scanned msg from (some r) e ih = ih r (gid, msg, from, r.1, e)

pub write_dests-Does :
    {B : Type 0} (h : Host) (Good : Outcome (Unit {0}) Call B → Type 0) (s : ℕ) (failed next : P B)
    (hs : Held)
    → Does h.device Good failed hs
    → Does h.device Good next hs
    → (dests : List PingpongDest) → Does h.device Good (write_dests h s failed next dests) hs
unfolding write_dests
write_dests-Does h Good s failed next hs fails rest [] = rest
write_dests-Does h Good s failed next hs fails rest (dest ∷ dests) =
    call-Does h.device Good (write_socket s (dest_message h.htonl dest)) _ hs (λ r. refl)
      (λ r.
        branch-Does h.device Good (r == message_size) (write_dests h s failed next dests) failed hs
          (write_dests-Does h Good s failed next hs fails rest dests) fails)
