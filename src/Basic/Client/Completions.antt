-- ===== src/Basic/Client/Completions.antt =====
-- When the client of 01_basic-client-server disconnects.
use cs594_dcn_f.Prelude.{
  ℕ, suc, ◌+◌, ◌≤◌, ◌≡◌, ◌≢◌, sym, ap, ◌∙◌, ◌==◌, ltb, leb, ◌&&◌, inl, inr, Bool-cases,
  Option-cases, Option, none, some, List, [], ◌∷◌, length, if◌then◌else◌, arith,
}
use mathlib.Core.Path.{subst}
use cs594_dcn_f.Effects.{World, Outcome, Log, Ends, Ends-bind, Ends-mono, ◌>>◌, call_, skip}
use cs594_dcn_f.Rdma.{Verbs, Call, Wc, WcOpcode, disconnect, place, store, update_self}
use cs594_dcn_f.Basic.Common.{ConnMemory, Connection, drain_cq}
use cs594_dcn_f.Basic.Client.{report, on_completion}

-- How often `rdma_disconnect` has been called.
abbrev pub disconnects : Log Call → ℕ
disconnects [] = 0
disconnects ((disconnect id, r) ∷ log) = suc (disconnects log)
disconnects (_ ∷ log) = disconnects log

abbrev pub completions : Option Connection → Option ℕ
completions none = none
completions (some conn) = some conn.num_completions

-- The connection at `p` has seen `c` completions, and `k` disconnections have been asked for.
abbrev pub Counted : ℕ → ℕ → ℕ → World ConnMemory Call → Type 0
Counted p c k w = (completions (w.state.heap p) ≡ some c) × (disconnects w.log ≡ k)

abbrev pub AtMost : ℕ → World ConnMemory Call → Type 0
AtMost k w = disconnects w.log ≤ k

-- 1 if the second completion is among the `n` that follow the first `c`.
abbrev pub crosses : ℕ → ℕ → ℕ
crosses c n = if ltb c 2 && leb 2 (c + n) then 1 else 0

-- Those that the rest of a run can still ask for.
abbrev pub left : ℕ → ℕ
left c = if ltb c 2 then 1 else 0

module _ (v : Verbs) where
  report-Counted :
      (op : WcOpcode) (conn : Connection) (p c k : ℕ) (w : World ConnMemory Call)
      → Counted p c k w
      → Ends (report v op conn w) (λ w'. (w'.state ≡ w.state) × (disconnects w'.log ≡ k)) (AtMost k)
  unfolding report
  report-Counted op conn p c k w h = ground arith

  -- The end of `on_completion`, which counts.
  count-Counted :
      (conn : Connection) (p c k : ℕ) (w : World ConnMemory Call)
      → conn.num_completions ≡ c
      → disconnects w.log ≡ k
      → Ends
          ((store p (record conn { num_completions = conn.num_completions + 1 })
              >> (if (conn.num_completions + 1) == 2
                  then call_ v.answer (disconnect conn.id)
                  else skip))
            w)
          (Counted p (c + 1) (k + crosses c 1))
          (AtMost k)
  count-Counted conn p c k w count logged =
      let conn' : Connection = record conn { num_completions = conn.num_completions + 1 } in
      let here : completions ((place p w conn').state.heap p) ≡ some (c + 1) =
        ap completions (update_self w.state.heap p (some conn')) ∙ ap (λ n. some (n + 1)) count in
      elim (Bool-cases ((conn.num_completions + 1) == 2)) [
        | inl e ↦ rw (e) (here, ground arith)
        | inr e ↦ rw (e) (here, ground arith)
      ]

  -- The connection behind `Counted`.
  found :
      (p c k : ℕ) (w : World ConnMemory Call)
      → Counted p c k w
      → (conn : Connection) × (w.state.heap p ≡ some conn) × (conn.num_completions ≡ c)
  found p c k w h = elim (Option-cases (w.state.heap p)) [
    | inl e ↦ absurd (ground arith)
    | inr (conn, e) ↦ (conn, e, ground arith)
  ]

  -- A completion is counted, and the second one disconnects.
  on_completion-Counted :
      (wc : Wc) (c k : ℕ) (w : World ConnMemory Call)
      → wc.wr_id ≢ 0
      → Counted wc.wr_id c k w
      → Ends (on_completion v wc w) (Counted wc.wr_id (c + 1) (k + crosses c 1)) (AtMost k)
  unfolding on_completion
  on_completion-Counted wc c k w pos h =
      let (conn, here, count) = found wc.wr_id c k w h in
      let conn' : Connection = record conn { num_completions = conn.num_completions + 1 } in
      let handled =
        Ends-bind (report v wc.opcode conn)
          (λ _.
            store wc.wr_id conn'
            >> (if (conn.num_completions + 1) == 2
                then call_ v.answer (disconnect conn.id)
                else skip))
          w (λ w'. (w'.state ≡ w.state) × (disconnects w'.log ≡ k))
          (Counted wc.wr_id (c + 1) (k + crosses c 1)) (AtMost k)
          (report-Counted wc.opcode conn wc.wr_id c k w h)
          (λ _ w' h'. count-Counted conn wc.wr_id c k w' count h'.1) in
      ground (arith, handled)

abbrev pub AllOf : ℕ → List Wc → Type 0
AllOf p [] = Unit
AllOf p (wc ∷ wcs) = (wc.wr_id ≡ p) × AllOf p wcs

-- The counts of a first completion and of the `n` after it add up.
crosses-suc :
    (c n : ℕ)
    → (crosses c 1 + crosses (c + 1) n ≡ crosses c (suc n)) × (crosses c 1 + left (c + 1) ≡ left c)
crosses-suc c n = ground arith

Ends_cast :
    {A : Type 0} (o : Outcome ConnMemory Call A) (p c c' k k' m m' : ℕ)
    → c ≡ c'
    → k ≡ k'
    → m ≡ m'
    → Ends o (Counted p c k) (AtMost m)
    → Ends o (Counted p c' k') (AtMost m')
Ends_cast o p c c' k k' m m' ec ek em h =
    subst (λ z. Ends o (Counted p c' k') (AtMost z)) em
      (subst (λ z. Ends o (Counted p c' z) (AtMost m)) ek
        (subst (λ z. Ends o (Counted p z k) (AtMost m)) ec h))

-- However sends, receives and failures are mixed in a run of completions of the connection at `p`,
-- which has seen `c` of them, and whatever the libraries answer: if the run is handled to its end,
-- every completion is counted, and the client asks for a disconnection once if the second completion
-- is among them, and otherwise never; if it exits early, it has asked once at most, and not at all if two
-- completions were counted before the run.
pub drain_cq-Disconnects :
    (v : Verbs) (p : ℕ) (wcs : List Wc) (c k : ℕ) (w : World ConnMemory Call)
    → p ≢ 0
    → AllOf p wcs
    → Counted p c k w
    → Ends
        (drain_cq v (on_completion v) wcs w)
        (Counted p (c + length wcs) (k + crosses c (length wcs)))
        (AtMost (k + left c))
unfolding drain_cq
drain_cq-Disconnects v p [] c k w pos all h = (h.0 ∙ ap some (omega arith), h.1 ∙ ground arith)
drain_cq-Disconnects v p (wc ∷ wcs) c k w pos all h =
    Ends-bind (on_completion v wc) (λ _. drain_cq v (on_completion v) wcs) w
      (Counted wc.wr_id (c + 1) (k + crosses c 1))
      (Counted p (c + length (wc ∷ wcs)) (k + crosses c (length (wc ∷ wcs)))) (AtMost (k + left c))
      (Ends-mono (on_completion v wc w) _ (AtMost k) (AtMost (k + left c))
        (on_completion-Counted v wc c k w (λ e. pos (sym all.0 ∙ e))
          (subst (λ q. Counted q c k w) (sym all.0) h))
        (λ w' m. omega arith))
      (λ _ w' h'.
        let (both, rest) = crosses-suc c (length wcs) in
        let after =
          drain_cq-Disconnects v p wcs (c + 1) (k + crosses c 1) w' pos all.1
            (subst (λ q. Counted q (c + 1) (k + crosses c 1) w') all.0 h') in
        Ends_cast (drain_cq v (on_completion v) wcs w') p _ _ _ _ _ _ (omega arith)
          (omega (arith, both)) (omega (arith, rest)) after)
