-- ===== src/Rdma/Events.antt =====
-- Which connection events a loop reads before it ends.
use cs594_dcn_f.Prelude.{◌≡◌, refl, Bool, true, false, if◌then◌else◌, List, [], ◌∷◌}
use cs594_dcn_f.Effects.{M, World, Outcome, done, stop, Gives, Gives-bind, ◌>>=◌, ◌>>◌, pure}
use cs594_dcn_f.Rdma.Api.{
  Event, EventType, addr_resolved, route_resolved, connect_request, established, disconnected,
  other_event,
}

abbrev pub is_disconnected : EventType → Bool
is_disconnected addr_resolved = false
is_disconnected route_resolved = false
is_disconnected connect_request = false
is_disconnected established = false
is_disconnected disconnected = true
is_disconnected other_event = false

-- The events behind the first disconnection.
abbrev pub after_disconnected : List Event → List Event
after_disconnected [] = []
after_disconnected (e ∷ es) = if is_disconnected e.event then es else after_disconnected es

module _ {S C : Type 0} {A : Type 0} where
  -- If the computation returns, it returns `a`.
  abbrev pub Answers : A → M S C A → Type 0
  Answers a m = (w : World S C) → Gives (m w) (λ a' w'. a' ≡ a) (λ w'. Unit)

  pub Answers-pure : (a : A) → Answers a (pure a)
  Answers-pure a w = refl

pub Answers-bind :
    {S C A B : Type 0} (b : B) (m : M S C A) (f : A → M S C B)
    → ((a : A) → Answers b (f a))
    → Answers b (m >>= f)
Answers-bind {S = S} {C = C} b m f rest w =
    Gives-bind m f w (λ a w'. Unit) (λ b' w'. b' ≡ b) (λ w'. Unit) (any (m w)) (λ a w' u. rest a w')
  where
    any : {A : Type 0} (o : Outcome S C A) → Gives o (λ a w'. Unit) (λ w'. Unit)
    any (done a w') = tt
    any (stop r w') = tt

-- A handler of one step, and one of three, with a fixed answer.
pub one-Answers : {S C A : Type 0} (b : A) (m : M S C (Unit {0})) → Answers b (m >> pure b)
one-Answers b m = Answers-bind b m (λ u. pure b) (λ u. Answers-pure b)

pub three-Answers :
    {S C A : Type 0} (b : A) (m n k : M S C (Unit {0})) → Answers b (m >> (n >> (k >> pure b)))
three-Answers b m n k =
    Answers-bind b m (λ u. n >> (k >> pure b))
      (λ u. Answers-bind b n (λ u. k >> pure b) (λ u. one-Answers b k))

-- The end of a loop's body: `b` says whether the loop ends, and `left` is what the rest leaves.
pub read_next :
    {S C : Type 0} (b : Bool) (m : M S C Bool) (es left : List Event) (rest : M S C (List Event))
    → Answers b m
    → Answers left rest
    → Answers (if b then es else left) (m >>= λ ended. if ended then pure es else rest)
read_next {S} {C} b m es left rest step after w =
    Gives-bind m (λ ended. if ended then pure es else rest) w (λ b' w'. b' ≡ b)
      (λ a w'. a ≡ (if b then es else left)) (λ w'. Unit) (step w) (λ b' w' e. go b b' w' e)
  where
    go :
        (b b' : Bool) (w' : World S C)
        → b' ≡ b
        → Gives
            ((if b' then pure es else rest) w')
            (λ a w''. a ≡ (if b then es else left))
            (λ w''. Unit)
    go true true w' e = refl
    go false false w' e = after w'
    go true false w' e = absurd (cc)
    go false true w' e = absurd (cc)
