-- ===== src/Rdma/Setup.antt =====
-- `build_context`, run more than once.
use cs594_dcn_f.Prelude.{ℕ, ◌≡◌, refl, ap, ◌∙◌, Option-cases, inl, inr, Option, none, some, arith}
use cs594_dcn_f.Effects.{World, Outcome, done, stop, Gives, Gives-mono, ◌>>◌}
use cs594_dcn_f.Rdma.{Context, Memory, create_context, build_context}
use cs594_dcn_f.Rdma.Api.{Verbs, Call}

abbrev pub device_of : Option Context → Option ℕ
device_of none = none
device_of (some c) = some c.ctx

module _ (v : Verbs) {X : Type 0} where
  create_context-Gives :
      (verbs : ℕ) (w : World (Memory X) Call)
      → Gives
          (create_context v verbs w)
          (λ u w'. device_of w'.state.s_ctx ≡ some verbs)
          (λ w'. Unit)
  unfolding create_context
  create_context-Gives verbs w = ground arith

  build_context-again :
      (a b : ℕ) (w : World (Memory X) Call)
      → device_of w.state.s_ctx ≡ some a
      → Gives (build_context v b w) (λ u w'. (a ≡ b) × (w ≡ w')) (λ w'. Unit)
  unfolding build_context
  build_context-again a b w h = ground arith

  build_context-first :
      (a : ℕ) (w : World (Memory X) Call)
      → Gives (build_context v a w) (λ u w'. device_of w'.state.s_ctx ≡ some a) (λ w'. Unit)
  unfolding build_context
  build_context-first a w = elim (Option-cases w.state.s_ctx) [
    | inl e ↦ ground (arith, create_context-Gives a w)
    | inr (c, e) ↦ ground arith
  ]

  -- What the first of two calls has done is all that both do.
  abbrev pub Shared : ℕ → ℕ → World (Memory X) Call → Unit {0} → World (Memory X) Call → Type 0
  Shared a b w u w' = (a ≡ b) × (build_context v a w ≡ done tt w')

  -- All connections of a program share one context: if `build_context` runs for two connections, then
  -- either a call fails and the program exits, or both are on the same device, and the
  -- second run has made no call and changed nothing.
  pub build_context-Shared :
      (a b : ℕ) (w : World (Memory X) Call)
      → Gives ((build_context v a >> build_context v b) w) (Shared a b w) (λ w'. Unit)
  build_context-Shared a b w = go (build_context v a w) refl (build_context-first a w)
    where
      go :
          (o : Outcome (Memory X) Call (Unit {0}))
          → build_context v a w ≡ o
          → Gives o (λ u w'. device_of w'.state.s_ctx ≡ some a) (λ w'. Unit)
          → Gives
              (elim o as (λ z. Outcome (Memory X) Call (Unit {0})) [
                | done u w' ↦ build_context v b w'
                | stop r w' ↦ stop r w'
              ])
              (Shared a b w)
              (λ w'. Unit)
      go (done u w1) e h =
          Gives-mono (build_context v b w1) (λ u w'. (a ≡ b) × (w1 ≡ w')) (Shared a b w)
            (λ w'. Unit) (build_context-again a b w1 h) (λ u' w' k. (k.0, e ∙ ap (done tt) k.1))
      go (stop r w1) e h = tt
