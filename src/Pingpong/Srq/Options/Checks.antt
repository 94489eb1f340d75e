-- ===== src/Pingpong/Srq/Options/Checks.antt =====
-- What the options that `main` of srq_pingpong.c accepts have in common.
use cs594_dcn_f.Prelude.{
  ℕ, ◌^◌, ◌≤◌, ◌<◌, ◌≡◌, refl, ◌⊎◌, inl, inr, Bool, true, false, ◌||◌, Option, none, some, List, [],
  ◌∷◌, leb, arith,
}
use cs594_dcn_f.Pingpong.Options.{
  pp_mtu_to_enum, mtu_negative, to_int, negative, server_name, ◌>>=◌,
}
use cs594_dcn_f.Pingpong.Options.Checks.{port-small, ib_port-small}
use cs594_dcn_f.Pingpong.Srq.Options.{
  SrqSettings, SrqOpt, events, unknown, port, ib_port, size, mtu, num_qp, rx_depth, iters, sl,
  gid_idx, ib_dev, initial, unless_, set_option, set_options, above, check_settings,
  parse_arguments,
}

-- What the loop keeps up.
pub record Sound (signed : Bool) (s : SrqSettings) : Type 0 where
  pub port_small : s.port < 65536
  pub ib_port_small : s.ib_port < 2 ^ 31
  pub mtu_known : mtu_negative signed s.mtu ≡ false
  pub num_qp_fits : s.num_qp < 2 ^ 32
  pub rx_depth_fits : s.rx_depth < 2 ^ 32

abbrev pub Holds : (SrqSettings → Type 0) → Option SrqSettings → Type 0
Holds P none = Unit
Holds P (some s) = P s

unless_-Holds :
    (P : SrqSettings → Type 0) (b : Bool) (s : SrqSettings)
    → (b ≡ false → P s)
    → Holds P (unless_ b s)
unless_-Holds P true s h = tt
unless_-Holds P false s h = h refl

-- An option that leaves the port, the InfiniBand port and the MTU alone.
kept :
    (signed : Bool) (s : SrqSettings) (ok : Sound signed s) (s' : SrqSettings)
    → s'.port ≡ s.port
    → s'.ib_port ≡ s.ib_port
    → s'.mtu ≡ s.mtu
    → s'.num_qp < 2 ^ 32
    → s'.rx_depth < 2 ^ 32
    → Sound signed s'
kept signed s ok s' p i m q d = record {
  port_small = rw (p) ok.port_small;
  ib_port_small = rw (i) ok.ib_port_small;
  mtu_known = rw (m) ok.mtu_known;
  num_qp_fits = q;
  rx_depth_fits = d;
}

set_option-Sound :
    (signed : Bool) (o : SrqOpt) (s : SrqSettings)
    → Sound signed s
    → Holds (Sound signed) (set_option signed o s)
unfolding set_option
set_option-Sound signed events s ok =
    kept signed s ok _ refl refl refl ok.num_qp_fits ok.rx_depth_fits
set_option-Sound signed (size n) s ok =
    kept signed s ok _ refl refl refl ok.num_qp_fits ok.rx_depth_fits
set_option-Sound signed (iters n) s ok =
    kept signed s ok _ refl refl refl ok.num_qp_fits ok.rx_depth_fits
set_option-Sound signed (sl n) s ok =
    kept signed s ok _ refl refl refl ok.num_qp_fits ok.rx_depth_fits
set_option-Sound signed (gid_idx n) s ok =
    kept signed s ok _ refl refl refl ok.num_qp_fits ok.rx_depth_fits
set_option-Sound signed (ib_dev name) s ok =
    kept signed s ok _ refl refl refl ok.num_qp_fits ok.rx_depth_fits
set_option-Sound signed (num_qp n) s ok =
    kept signed s ok _ refl refl refl (omega arith) ok.rx_depth_fits
set_option-Sound signed (rx_depth n) s ok =
    kept signed s ok _ refl refl refl ok.num_qp_fits (omega arith)
set_option-Sound signed (port n) s ok =
    unless_-Holds (Sound signed) (negative (to_int n) || leb 65536 (to_int n))
      (record s { port = to_int n })
      (λ e. record {
        port_small = port-small (to_int n) e;
        ib_port_small = ok.ib_port_small;
        mtu_known = ok.mtu_known;
        num_qp_fits = ok.num_qp_fits;
        rx_depth_fits = ok.rx_depth_fits;
      })
set_option-Sound signed (ib_port n) s ok =
    unless_-Holds (Sound signed) (negative (to_int n)) (record s { ib_port = to_int n })
      (λ e. record {
        port_small = ok.port_small;
        ib_port_small = ib_port-small (to_int n) e;
        mtu_known = ok.mtu_known;
        num_qp_fits = ok.num_qp_fits;
        rx_depth_fits = ok.rx_depth_fits;
      })
set_option-Sound signed (mtu n) s ok =
    unless_-Holds (Sound signed) (mtu_negative signed (pp_mtu_to_enum (to_int n)))
      (record s { mtu = pp_mtu_to_enum (to_int n) })
      (λ e. record {
        port_small = ok.port_small;
        ib_port_small = ok.ib_port_small;
        mtu_known = e;
        num_qp_fits = ok.num_qp_fits;
        rx_depth_fits = ok.rx_depth_fits;
      })
set_option-Sound signed unknown s ok = tt

set_options-Sound :
    (signed : Bool) (os : List SrqOpt) (s : SrqSettings)
    → Sound signed s
    → Holds (Sound signed) (set_options signed os s)
unfolding set_options
set_options-Sound signed [] s ok = ok
set_options-Sound signed (o ∷ os) s ok =
    go (set_option signed o s) (set_option-Sound signed o s ok) (set_options-Sound signed os)
  where
    go :
        (r : Option SrqSettings)
        → Holds (Sound signed) r
        → ((s' : SrqSettings) → Sound signed s' → Holds (Sound signed) (set_options signed os s'))
        → Holds (Sound signed) (r >>= set_options signed os)
    go none h rest = tt
    go (some s') h rest = rest s' h

-- What holds of accepted settings: a negative number of queue pairs is accepted too.
pub record SrqAccepted (signed : Bool) (s : SrqSettings) : Type 0 where
  pub sound : Sound signed s
  pub receives : (negative s.num_qp ≡ true) ⊎ ((s.num_qp ≤ s.rx_depth) × (s.rx_depth < 2 ^ 31))

not_above : (a b : ℕ) → a < 2 ^ 31 → b < 2 ^ 32 → above a b ≡ false → (a ≤ b) × (b < 2 ^ 31)
not_above a b small fits e = ground arith

check_settings-SrqAccepted :
    (signed : Bool) (s : SrqSettings)
    → Sound signed s
    → Holds (SrqAccepted signed) (check_settings s)
unfolding check_settings
check_settings-SrqAccepted signed s ok =
    unless_-Holds (SrqAccepted signed) (above s.num_qp s.rx_depth) s
      (λ e. record { sound = ok; receives = sides e (negative s.num_qp) refl })
  where
    sides :
        above s.num_qp s.rx_depth ≡ false
        → (b : Bool) → negative s.num_qp ≡ b
        → (negative s.num_qp ≡ true) ⊎ ((s.num_qp ≤ s.rx_depth) × (s.rx_depth < 2 ^ 31))
    sides e true t = inl t
    sides e false t =
        inr (not_above s.num_qp s.rx_depth (ib_port-small s.num_qp t) ok.rx_depth_fits e)

initial-Sound : (signed : Bool) → Sound signed initial
unfolding mtu_negative
initial-Sound signed = record {
  port_small = omega arith;
  ib_port_small = omega arith;
  mtu_known = refl;
  num_qp_fits = omega arith;
  rx_depth_fits = omega arith;
}

abbrev pub SrqParsed : Bool → Option (SrqSettings × Option (List ℕ)) → Type 0
SrqParsed signed none = Unit
SrqParsed signed (some (s, name)) = SrqAccepted signed s

-- Whatever options and operands are given, `main` of srq_pingpong.c either ends with 1, or goes on with a TCP port of 16 bits, an
-- InfiniBand port that is not negative, an MTU that passes its test, and at least one receive for each queue pair, unless
-- their number is negative.
pub parse_arguments-SrqParsed :
    (signed : Bool) (os : List SrqOpt) (operands : List (List ℕ))
    → SrqParsed signed (parse_arguments signed os operands)
unfolding parse_arguments
parse_arguments-SrqParsed signed os operands =
    first (set_options signed os initial)
      (set_options-Sound signed os initial (initial-Sound signed))
  where
    last :
        (name : Option (List ℕ)) (r : Option SrqSettings)
        → Holds (SrqAccepted signed) r
        → SrqParsed signed (r >>= λ s'. some (s', name))
    last name none h = tt
    last name (some s') h = h

    second :
        (s : SrqSettings)
        → Sound signed s
        → (n : Option (Option (List ℕ)))
        → SrqParsed signed (n >>= λ name. check_settings s >>= λ s'. some (s', name))
    second s h none = tt
    second s h (some name) = last name (check_settings s) (check_settings-SrqAccepted signed s h)

    first :
        (r : Option SrqSettings)
        → Holds (Sound signed) r
        → SrqParsed signed
            (r >>= λ s. server_name operands >>= λ name. check_settings s >>= λ s'. some (s', name))
    first none h = tt
    first (some s) h = second s h (server_name operands)
