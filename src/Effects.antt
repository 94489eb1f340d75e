-- ===== src/Effects.antt =====
-- The monad in which the C functions are written: the program's memory, the log of its calls into
-- code outside of the repository, and the ways in which it stops.
use cs594_dcn_f.Prelude.{ℕ, List, Option, none, some, ◌∷◌, ◌==◌, if◌then◌else◌}

-- How the process stops: `exit(EXIT_FAILURE)`, undefined behaviour (a null or dangling pointer), or
-- a loop that nothing ends; and a `goto` to a label further down, at which the function goes on.
pub data Stop : Type 0 where
  exit_failure fault hung jump : Stop

-- Each call that was made and its answer, the newest first.
abbrev pub Log : Type 0 → Type 0
Log C = List (C × ℕ)

-- `S` is the program's memory, `C` the type of its calls.
pub record World (S C : Type 0) : Type 0 where
  pub state : S
  pub log : Log C

pub data Outcome (S C A : Type 0) : Type 0 where
  done : A → World S C → Outcome S C A
  stop : Stop → World S C → Outcome S C A

abbrev pub M : Type 0 → Type 0 → Type 0 → Type 0
M S C A = World S C → Outcome S C A

module _ {S C : Type 0} where
  infixl 5 ◌>>=◌ ◌>>◌
  abbrev pub ◌>>=◌ : {A B : Type 0} → M S C A → (A → M S C B) → M S C B
  ◌>>=◌ m f w = elim (m w) [ done a w' ↦ f a w' | stop r w' ↦ stop r w' ]

  abbrev pub ◌>>◌ : {B : Type 0} → M S C (Unit {0}) → M S C B → M S C B
  m >> k = m >>= λ _. k

  abbrev pub pure : {A : Type 0} → A → M S C A
  pure a w = done a w

  abbrev pub skip : M S C (Unit {0})
  skip w = done tt w

  abbrev pub halt : {A : Type 0} → Stop → M S C A
  halt r w = stop r w

  abbrev pub get : M S C S
  get w = done w.state w

  abbrev pub put : S → M S C (Unit {0})
  put s w = done tt (record w { state = s })

  -- A call into code outside: `env` gives its answer, from all the calls before it.
  abbrev pub call : (Log C → C → ℕ) → C → M S C ℕ
  call env c w = done (env w.log c) (record { state = w.state; log = (c, env w.log c) ∷ w.log })

  -- A call whose answer the program ignores.
  abbrev pub call_ : (Log C → C → ℕ) → C → M S C (Unit {0})
  call_ env c w = done tt (record { state = w.state; log = (c, env w.log c) ∷ w.log })

  -- What a call has stored through a pointer.
  abbrev pub stored : {A : Type 0} → (Log C → A) → M S C A
  stored f w = done (f w.log) w

  -- `TEST_NZ`: anything but 0 is fatal.
  abbrev pub test_nz : (Log C → C → ℕ) → C → M S C (Unit {0})
  test_nz env c = call env c >>= λ r. if r == 0 then skip else halt exit_failure

  -- `TEST_Z`: 0, a null pointer, is fatal.
  abbrev pub test_z : (Log C → C → ℕ) → C → M S C ℕ
  test_z env c = call env c >>= λ r. if r == 0 then halt exit_failure else pure r

  -- The use of a pointer: a null pointer is a fault.
  abbrev pub deref : {A : Type 0} → Option A → M S C A
  deref none = halt fault
  deref (some a) = pure a

  -- The state that an outcome leaves behind.
  abbrev pub final : {A : Type 0} → Outcome S C A → World S C
  final (done a w) = w
  final (stop r w) = w

  -- What holds if a computation returns, and what if it stops.
  abbrev pub Ends :
      {A : Type 0} → Outcome S C A → (World S C → Type 0) → (World S C → Type 0) → Type 0
  Ends (done a w) P Q = P w
  Ends (stop r w) P Q = Q w

  pub Ends-bind :
      {A B : Type 0} (m : M S C A) (f : A → M S C B) (w : World S C) (P P' Q : World S C → Type 0)
      → Ends (m w) P Q
      → ((a : A) (w' : World S C) → P w' → Ends (f a w') P' Q)
      → Ends ((m >>= f) w) P' Q
  Ends-bind {A} m f w P P' Q first rest = go (m w) first
    where
      go :
          (o : Outcome S C A)
          → Ends o P Q
          → Ends (elim o [ done a w' ↦ f a w' | stop r w' ↦ stop r w' ]) P' Q
      go (done a w') h = rest a w' h
      go (stop r w') h = h

  pub Ends-mono :
      {A : Type 0} (o : Outcome S C A) (P Q Q' : World S C → Type 0)
      → Ends o P Q
      → ((w : World S C) → Q w → Q' w)
      → Ends o P Q'
  Ends-mono (done a w) P Q Q' h weaker = h
  Ends-mono (stop r w) P Q Q' h weaker = weaker w h

  pub Ends_both :
      {A : Type 0} (o : Outcome S C A) (P P' Q Q' : World S C → Type 0)
      → Ends o P Q
      → Ends o P' Q'
      → Ends o (λ w. P w × P' w) (λ w. Q w × Q' w)
  Ends_both (done a w) P P' Q Q' h h' = (h, h')
  Ends_both (stop r w) P P' Q Q' h h' = (h, h')

  pub Ends-same :
      {A : Type 0} (o : Outcome S C A) (P : World S C → Type 0) → Ends o P P → P (final o)
  Ends-same (done a w) P h = h
  Ends-same (stop r w) P h = h

  -- The same, of the result too.
  abbrev pub Gives :
      {A : Type 0} → Outcome S C A → (A → World S C → Type 0) → (World S C → Type 0) → Type 0
  Gives (done a w) P Q = P a w
  Gives (stop r w) P Q = Q w

  pub Gives-bind :
      {A B : Type 0} (m : M S C A) (f : A → M S C B) (w : World S C) (P : A → World S C → Type 0)
      (P' : B → World S C → Type 0) (Q : World S C → Type 0)
      → Gives (m w) P Q
      → ((a : A) (w' : World S C) → P a w' → Gives (f a w') P' Q)
      → Gives ((m >>= f) w) P' Q
  Gives-bind {A} {B} m f w P P' Q first rest = go (m w) first
    where
      go :
          (o : Outcome S C A)
          → Gives o P Q
          → Gives
              (elim o as (λ _. Outcome S C B) [ done a w' ↦ f a w' | stop r w' ↦ stop r w' ])
              P'
              Q
      go (done a w') h = rest a w' h
      go (stop r w') h = h

  pub Gives-Ends :
      {A B : Type 0} (m : M S C A) (f : A → M S C B) (w : World S C) (P : A → World S C → Type 0)
      (P' Q : World S C → Type 0)
      → Gives (m w) P Q
      → ((a : A) (w' : World S C) → P a w' → Ends (f a w') P' Q)
      → Ends ((m >>= f) w) P' Q
  Gives-Ends {A} {B} m f w P P' Q first rest = go (m w) first
    where
      go :
          (o : Outcome S C A)
          → Gives o P Q
          → Ends
              (elim o as (λ _. Outcome S C B) [ done a w' ↦ f a w' | stop r w' ↦ stop r w' ])
              P'
              Q
      go (done a w') h = rest a w' h
      go (stop r w') h = h

  pub Gives-mono :
      {A : Type 0} (o : Outcome S C A) (P P' : A → World S C → Type 0) (Q : World S C → Type 0)
      → Gives o P Q
      → ((a : A) (w : World S C) → P a w → P' a w)
      → Gives o P' Q
  Gives-mono (done a w) P P' Q h weaker = weaker a w h
  Gives-mono (stop r w) P P' Q h weaker = h

  pub Gives-weak :
      {A : Type 0} (o : Outcome S C A) (P : A → World S C → Type 0) (Q Q' : World S C → Type 0)
      → Gives o P Q
      → ((w : World S C) → Q w → Q' w)
      → Gives o P Q'
  Gives-weak (done a w) P Q Q' h weaker = h
  Gives-weak (stop r w) P Q Q' h weaker = weaker w h
