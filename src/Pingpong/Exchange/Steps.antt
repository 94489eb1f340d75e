-- ===== src/Pingpong/Exchange/Steps.antt =====
-- Rules for what an exchange of addresses in rc_pingpong.c holds: sockets and memory.
use cs594_dcn_f.Prelude.{
  ℕ, ◌≡◌, refl, Bool, true, false, Option, none, some, List, ◌∷◌, ◌==◌, if◌then◌else◌,
}
use cs594_dcn_f.Effects.{World, Outcome, done, stop, Log, Gives, ◌>>◌, ◌>>=◌, call, call_, deref}
use cs594_dcn_f.Pingpong.Api.{Device, Kind, socket, connection, dest_memory, Call, acquire, release}
use cs594_dcn_f.Pingpong.Context.{P}
use cs594_dcn_f.Pingpong.Context.Resources.{
  Held, held, after, rank, give_back, give_back_head, called, release-held,
}
use cs594_dcn_f.Pingpong.Exchange.{Host, Answer}

-- The outcome of an exchange that began with `hs`, whose messages `scan` reads: NULL with no more than that; a destination that was read from
-- what has been received, with its memory; or, if `scan` gives nothing for what has been received, undefined
-- behaviour.
abbrev pub Ended :
    {D : Type 0} → Host → (List ℕ → Option D) → Held → Outcome (Unit {0}) Call (Answer D) → Type 0
Ended h scan hs (done none w) = held w.log ≡ some hs
Ended h scan hs (done (some (p, dest)) w) =
    (held w.log ≡ some ((dest_memory, p) ∷ hs))
    × ((log : Log Call) × (scan (h.received log) ≡ some dest))
Ended h scan hs (stop r w) = (log : Log Call) × (scan (h.received log) ≡ none)

pub give_back_second :
    (k j : Kind) (p q : ℕ) (hs : Held)
    → (rank j == rank k) ≡ false
    → give_back k p ((j, q) ∷ (k, p) ∷ hs) ≡ some ((j, q) ∷ hs)
give_back_second k j p q hs other = rw (other) (rw (give_back_head k p hs) refl)

module _ {B : Type 0} (d : Device) (Good : Outcome (Unit {0}) Call B → Type 0) where
  -- From `hs`, the rest of the exchange ends well.
  abbrev pub Does : P B → Held → Type 0
  Does m hs = (w : World (Unit {0}) Call) → held w.log ≡ some hs → Good (m w)

  pub acquire-Does :
      (k : Kind) (failed : P B) (next : ℕ → P B) (hs : Held)
      → Does failed hs
      → ((p : ℕ) → Does (next p) ((k, p) ∷ hs))
      → Does (call d.answer (acquire k) >>= λ p. if p == 0 then failed else next p) hs
  acquire-Does k failed next hs fails rest w e = go (p == 0) refl
    where
      p : ℕ
      p = d.answer w.log (acquire k)

      w' : World (Unit {0}) Call
      w' = called d (acquire k) w

      go : (b : Bool) → (p == 0) ≡ b → Good ((if p == 0 then failed else next p) w')
      go true t = rw t (fails w' (rw e (rw t refl)))
      go false t = rw t (rest p w' (rw e (rw t refl)))

  pub release-Does :
      (k : Kind) (p : ℕ) (m : P B) (hs : Held)
      → Does m hs
      → Does (call_ d.answer (release k p) >> m) ((k, p) ∷ hs)
  release-Does k p m hs rest w e = rest (called d (release k p) w) (release-held d k p hs w e)

  pub release_second-Does :
      (k j : Kind) (p q : ℕ) (m : P B) (hs : Held)
      → (rank j == rank k) ≡ false
      → Does m ((j, q) ∷ hs)
      → Does (call_ d.answer (release k p) >> m) ((j, q) ∷ (k, p) ∷ hs)
  release_second-Does k j p q m hs other rest w e =
      rest (called d (release k p) w) (rw e (give_back_second k j p q hs other))

  -- A call that acquires nothing and gives nothing back.
  pub call-Does :
      (c : Call) (f : ℕ → P B) (hs : Held)
      → ((r : ℕ) → after c r hs ≡ some hs)
      → ((r : ℕ) → Does (f r) hs)
      → Does (call d.answer c >>= f) hs
  call-Does c f hs neutral rest w e =
      rest (d.answer w.log c) (called d c w) (rw e (neutral (d.answer w.log c)))

  pub call_-Does :
      (c : Call) (m : P B) (hs : Held)
      → ((r : ℕ) → after c r hs ≡ some hs)
      → Does m hs
      → Does (call_ d.answer c >> m) hs
  call_-Does c m hs neutral rest w e = rest (called d c w) (rw e (neutral (d.answer w.log c)))

  pub branch-Does :
      (b : Bool) (m n : P B) (hs : Held) → Does m hs → Does n hs → Does (if b then m else n) hs
  branch-Does true m n hs yes_ no_ = yes_
  branch-Does false m n hs yes_ no_ = no_

  -- A part that comes back with `next` held, for each of its results.
  pub Gives-Does :
      {A : Type 0} (m : P A) (f : A → P B) (hs : Held) (next : A → Held)
      → ((w : World (Unit {0}) Call)
          → held w.log ≡ some hs
          → Gives (m w) (λ a w'. held w'.log ≡ some (next a)) (λ w'. ⊥))
      → ((a : A) → Does (f a) (next a))
      → Does (m >>= f) hs
  Gives-Does {A} m f hs next part rest w e = go (m w) (part w e)
    where
      go :
          (o : Outcome (Unit {0}) Call A)
          → Gives o (λ a w'. held w'.log ≡ some (next a)) (λ w'. ⊥)
          → Good (elim o as (λ z. Outcome (Unit {0}) Call B) [
            | done a w' ↦ f a w'
            | stop r w' ↦ stop r w'
          ])
      go (done a w') t = rest a w' t
      go (stop r w') t = absurd t

  -- A connection is accepted, and the listening socket closed at once.
  pub accept-Does :
      (s : ℕ) (failed : P B) (next : ℕ → P B) (hs : Held)
      → Does failed hs
      → ((c : ℕ) → Does (next c) ((connection, c) ∷ hs))
      → Does
          (call d.answer (acquire connection) >>= λ c.
            call_ d.answer (release socket s) >> (if c == 0 then failed else next c))
          ((socket, s) ∷ hs)
  accept-Does s failed next hs fails rest w e = go (c == 0) refl
    where
      c : ℕ
      c = d.answer w.log (acquire connection)

      w' : World (Unit {0}) Call
      w' = called d (acquire connection) w

      go :
          (b : Bool)
          → (c == 0) ≡ b
          → Good ((call_ d.answer (release socket s) >> (if c == 0 then failed else next c)) w')
      go true t =
          release-Does socket s (if c == 0 then failed else next c) hs (rw (t) fails) w'
            (rw e (rw t refl))
      go false t =
          release_second-Does socket connection s c (if c == 0 then failed else next c) hs refl
            (rw (t) (rest c)) w' (rw e (rw t refl))

module _ {D : Type 0} (h : Host) (scan : List ℕ → Option D) (before : Held) where
  pub deref-Does :
      (log : Log Call) (k : D → P (Answer D)) (hs : Held)
      → ((dest : D)
          → scan (h.received log) ≡ some dest
          → Does h.device (Ended h scan before) (k dest) hs)
      → Does h.device (Ended h scan before) (deref (scan (h.received log)) >>= k) hs
  deref-Does log k hs rest w e = go (scan (h.received log)) refl
    where
      go : (o : Option D) → scan (h.received log) ≡ o → Ended h scan before ((deref o >>= k) w)
      go none t = (log, t)
      go (some dest) t = rest dest t w e
