-- ===== src/Pingpong/Srq/Exchange/Reads.antt =====
-- The loop of srq_pingpong.c that reads one message of its peer.
use cs594_dcn_f.Prelude.{
  ℕ, zero, suc, ◌+◌, ◌-◌, ◌≤◌, ◌<◌, ◌≡◌, refl, Bool, true, false, List, [], ◌∷◌, ◌++◌, length,
  length-append, take, length-take_of_le, ltb, lt→ltb, ltb→lt, if◌then◌else◌, arith,
}
use cs594_dcn_f.Effects.{World, Outcome, stop, hung, Log, call, stored, ◌>>=◌}
use cs594_dcn_f.Pingpong.Api.{Call, receive}
use cs594_dcn_f.Pingpong.Context.{P}
use cs594_dcn_f.Pingpong.Context.Resources.{called}
use cs594_dcn_f.Pingpong.Dest.{message_size}
use cs594_dcn_f.Pingpong.Exchange.{Host}
use cs594_dcn_f.Pingpong.Srq.Exchange.{below_zero, read_msg}

-- The program waits for ever.
abbrev pub Hangs : {A : Type 0} → Outcome (Unit {0}) Call A → Type 0
Hangs (stop hung w) = Unit
Hangs _ = ⊥

-- The message goes on to `next`, whole.
abbrev pub Reads : {A : Type 0} → (List ℕ → P A) → Outcome (Unit {0}) Call A → Type 0
Reads next o =
    (text : List ℕ) × (w : World (Unit {0}) Call) × (length text ≡ message_size) × (o ≡ next text w)

not_below : (r : ℕ) → r ≤ message_size → below_zero r ≡ false
not_below r few = ground arith

all_read : ltb message_size message_size ≡ false
all_read = refl

module _ (h : Host) where
  -- If the peer has closed its end of the connection before its whole message has come, every read gives 0 bytes, and the
  -- loop never ends: however many reads it makes, it is still reading.
  pub read_msg-Hangs :
      {A : Type 0} (fuel s : ℕ) (failed : P A) (next : List ℕ → P A) (n : ℕ) (text : List ℕ)
      (w : World (Unit {0}) Call)
      → ((log : Log Call) (k : ℕ) → h.device.answer log (receive s k) ≡ 0)
      → n < message_size
      → Hangs (read_msg h fuel s failed next n text w)
  unfolding read_msg
  read_msg-Hangs zero s failed next n text w closed short = tt
  read_msg-Hangs (suc fuel) s failed next n text w closed short =
      rw (lt→ltb n message_size short, closed w.log (message_size - n))
        (read_msg-Hangs fuel s failed next (n + 0) (text ++ [])
          (record { state = w.state; log = (receive s (message_size - n), 0) ∷ w.log }) closed
          (omega (arith, short)))

  -- Where every read gives at least a byte and no more than was asked for, one read for each byte that is missing is enough, and a
  -- last test of the loop: the whole message of 52 bytes goes on.
  pub read_msg-Reads :
      {A : Type 0} (fuel s : ℕ) (failed : P A) (next : List ℕ → P A) (n : ℕ) (text : List ℕ)
      (w : World (Unit {0}) Call)
      → ((log : Log Call) (k : ℕ) → 0 < k → 0 < h.device.answer log (receive s k))
      → ((log : Log Call) (k : ℕ) → h.device.answer log (receive s k) ≤ k)
      → ((log : Log Call) (k r : ℕ) → length (h.received ((receive s k, r) ∷ log)) ≡ r)
      → length text ≡ n
      → n ≤ message_size
      → message_size - n < fuel
      → Reads next (read_msg h fuel s failed next n text w)
  unfolding read_msg
  read_msg-Reads zero s failed next n text w some_ few sized size small enough =
      absurd (omega (arith, enough))
  read_msg-Reads (suc fuel) s failed next n text w some_ few sized size small enough =
      turn (ltb n message_size) refl
        (read_msg-Reads fuel s failed next (n + r) (text ++ bytes) w' some_ few sized)
    where
      k : ℕ
      k = message_size - n

      r : ℕ
      r = h.device.answer w.log (receive s k)

      w' : World (Unit {0}) Call
      w' = called h.device (receive s k) w

      bytes : List ℕ
      bytes = take r (h.received w'.log)

      counted : length bytes ≡ r
      counted = length-take_of_le r (h.received w'.log) (omega (arith, sized w.log k r))

      whole : ltb n message_size ≡ false → length text ≡ message_size
      whole e = ground arith

      turn :
          (b : Bool)
          → ltb n message_size ≡ b
          → (length (text ++ bytes) ≡ n + r
              → n + r ≤ message_size
              → message_size - (n + r) < fuel
              → Reads next (read_msg h fuel s failed next (n + r) (text ++ bytes) w'))
          → Reads next (
              (if b
                  then (call h.device.answer (receive s k) >>= λ r'. stored h.received >>= λ bytes'.
                      if below_zero r'
                      then failed
                      else read_msg h fuel s failed next (n + r') (text ++ take r' bytes'))
                  else next text)
                w)
      turn true e ih = rw (not_below r (omega (arith, few w.log k))) (
          ih (omega (arith, length-append text bytes, size, counted)) (omega (arith, few w.log k)) (
            omega (
              arith,
              some_ w.log k (omega (arith, ltb→lt n message_size e)),
              few w.log k,
              ltb→lt n message_size e,
            )))
      turn false e ih = (text, w, whole e, refl)
