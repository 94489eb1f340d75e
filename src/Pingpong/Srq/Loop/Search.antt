-- ===== src/Pingpong/Srq/Loop/Search.antt =====
-- `find_qp` of srq_pingpong.c against what it looks for.
use cs594_dcn_f.Prelude.{
  ℕ, zero, suc, ◌+◌, ◌<◌, ◌≡◌, refl, sym, ap, Bool, true, false, Option, none, some, List, [], ◌∷◌,
  ◌==◌, if◌then◌else◌, arith,
}
use cs594_dcn_f.Pingpong.Srq.Loop.{element, find_qp}

-- No queue pair before `k` has the number.
abbrev pub NoneBefore : (ℕ → ℕ) → ℕ → List ℕ → ℕ → Type 0
NoneBefore qp_num qpn qps k =
    (j qp : ℕ) → j < k → element j qps ≡ some qp → (qp_num qp == qpn) ≡ false

-- The first queue pair with the number stands at `k`.
abbrev pub StandsAt : (ℕ → ℕ) → ℕ → List ℕ → ℕ → Type 0
StandsAt qp_num qpn qps k =
    ((qp : ℕ) × (element k qps ≡ some qp) × ((qp_num qp == qpn) ≡ true))
    × NoneBefore qp_num qpn qps k

-- An answer: the index of the first one, counted from `i`, or that there is none.
abbrev pub IsFirst : (ℕ → ℕ) → ℕ → List ℕ → ℕ → Option ℕ → Type 0
IsFirst qp_num qpn qps i none = (j qp : ℕ) → element j qps ≡ some qp → (qp_num qp == qpn) ≡ false
IsFirst qp_num qpn qps i (some n) = (k : ℕ) × (n ≡ i + k) × StandsAt qp_num qpn qps k

module _ (qp_num : ℕ → ℕ) (qpn : ℕ) where
  same :
      (qp qp' : ℕ) → some qp ≡ some qp' → (qp_num qp == qpn) ≡ false → (qp_num qp' == qpn) ≡ false
  same qp qp' e t =
      let path : qp ≡ qp' = ap (λ o. elim o [ none ↦ 0 | some q ↦ q ]) e in rw (sym path) t

  -- `find_qp` gives the index of the first queue pair with the number, and -1 exactly if there is none.
  pub find_qp-IsFirst : (qps : List ℕ) (i : ℕ) → IsFirst qp_num qpn qps i (find_qp qp_num qpn qps i)
  unfolding find_qp
  find_qp-IsFirst [] i = λ j qp e. absurd (nothing e)
    where
      nothing : {qp : ℕ} → none ≡ some qp → ⊥
      nothing e = cc
  find_qp-IsFirst (qp ∷ qps) i =
      go (qp_num qp == qpn) refl (find_qp qp_num qpn qps (i + 1)) (find_qp-IsFirst qps (i + 1))
    where
      go :
          (b : Bool)
          → (qp_num qp == qpn) ≡ b
          → (o : Option ℕ) → IsFirst qp_num qpn qps (i + 1) o
          → IsFirst qp_num qpn (qp ∷ qps) i (if b then some i else o)
      go true t o h =
          (0, omega arith, ((qp, refl, t), λ j qp' small e. absurd (omega (arith, small))))
      go false t none h = λ j qp' e.
          elim j as (λ j. element j (qp ∷ qps) ≡ some qp' → (qp_num qp' == qpn) ≡ false) [
            | zero ↦ λ e. same qp qp' e t
            | suc j ↦ λ e. h j qp' e
          ]
            e
      go false t (some n) h = (suc h.0, omega (arith, h.1), (h.2.0, before))
        where
          before : NoneBefore qp_num qpn (qp ∷ qps) (suc h.0)
          before zero qp' small e = same qp qp' e t
          before (suc j) qp' small e = h.2.1 j qp' (omega (arith, small)) e
