-- ===== src/Pingpong/Options/Checks.antt =====
-- What the options that `main` of rc_pingpong.c accepts have in common.
use cs594_dcn_f.Prelude.{
  ℕ, ◌<◌, ◌^◌, ◌≡◌, ◌≢◌, refl, Bool, true, false, not, ◌&&◌, ◌||◌, leb, Option, none, some, List,
  [], ◌∷◌, ◌==◌, if◌then◌else◌, arith,
}
use cs594_dcn_f.Pingpong.Options.{
  Settings, Opt, memic, events, contiguous_mr, check_nop, odp, upstream, ooo, unknown, port,
  ib_port, size, mtu, rx_depth, iters, sl, gid_idx, inline_recv, contig_addr, ib_dev, initial,
  to_int, negative, pp_mtu_to_enum, mtu_negative, unless_, ◌>>=◌, set_option, set_options,
  server_name, check_settings, parse_arguments,
}

-- What the loop keeps up.
pub record Ranges (signed : Bool) (s : Settings) : Type 0 where
  pub port_small : s.port < 65536
  pub ib_port_small : s.ib_port < 2 ^ 31
  pub mtu_known : mtu_negative signed s.mtu ≡ false

abbrev pub Holds : (Settings → Type 0) → Option Settings → Type 0
Holds P none = Unit
Holds P (some s) = P s

unless_-Holds :
    (P : Settings → Type 0) (b : Bool) (s : Settings) → (b ≡ false → P s) → Holds P (unless_ b s)
unless_-Holds P true s h = tt
unless_-Holds P false s h = h refl

-- An option that sets none of the three.
kept :
    (signed : Bool) (s : Settings) (ok : Ranges signed s) (s' : Settings)
    → s'.port ≡ s.port
    → s'.ib_port ≡ s.ib_port
    → s'.mtu ≡ s.mtu
    → Ranges signed s'
kept signed s ok s' p i m = record {
  port_small = rw (p) ok.port_small;
  ib_port_small = rw (i) ok.ib_port_small;
  mtu_known = rw (m) ok.mtu_known;
}

pub port-small : (n : ℕ) → (negative n || leb 65536 n) ≡ false → n < 65536
port-small n e = ground arith

pub ib_port-small : (n : ℕ) → negative n ≡ false → n < 2 ^ 31
ib_port-small n e = ground arith

set_option-Ranges :
    (signed : Bool) (o : Opt) (s : Settings)
    → Ranges signed s
    → Holds (Ranges signed) (set_option signed o s)
unfolding set_option
set_option-Ranges signed memic s ok = kept signed s ok _ refl refl refl
set_option-Ranges signed events s ok = kept signed s ok _ refl refl refl
set_option-Ranges signed contiguous_mr s ok = kept signed s ok _ refl refl refl
set_option-Ranges signed check_nop s ok = kept signed s ok _ refl refl refl
set_option-Ranges signed odp s ok = kept signed s ok _ refl refl refl
set_option-Ranges signed upstream s ok = kept signed s ok _ refl refl refl
set_option-Ranges signed ooo s ok = kept signed s ok _ refl refl refl
set_option-Ranges signed (size n) s ok = kept signed s ok _ refl refl refl
set_option-Ranges signed (rx_depth n) s ok = kept signed s ok _ refl refl refl
set_option-Ranges signed (iters n) s ok = kept signed s ok _ refl refl refl
set_option-Ranges signed (sl n) s ok = kept signed s ok _ refl refl refl
set_option-Ranges signed (gid_idx n) s ok = kept signed s ok _ refl refl refl
set_option-Ranges signed (inline_recv n) s ok = kept signed s ok _ refl refl refl
set_option-Ranges signed (contig_addr n) s ok = kept signed s ok _ refl refl refl
set_option-Ranges signed (ib_dev name) s ok = kept signed s ok _ refl refl refl
set_option-Ranges signed (port n) s ok =
    unless_-Holds (Ranges signed) (negative (to_int n) || leb 65536 (to_int n))
      (record s { port = to_int n })
      (λ e. record {
        port_small = port-small (to_int n) e;
        ib_port_small = ok.ib_port_small;
        mtu_known = ok.mtu_known;
      })
set_option-Ranges signed (ib_port n) s ok =
    unless_-Holds (Ranges signed) (negative (to_int n)) (record s { ib_port = to_int n })
      (λ e. record {
        port_small = ok.port_small;
        ib_port_small = ib_port-small (to_int n) e;
        mtu_known = ok.mtu_known;
      })
set_option-Ranges signed (mtu n) s ok =
    unless_-Holds (Ranges signed) (mtu_negative signed (pp_mtu_to_enum (to_int n)))
      (record s { mtu = pp_mtu_to_enum (to_int n) })
      (λ e. record { port_small = ok.port_small; ib_port_small = ok.ib_port_small; mtu_known = e })
set_option-Ranges signed unknown s ok = tt

set_options-Ranges :
    (signed : Bool) (os : List Opt) (s : Settings)
    → Ranges signed s
    → Holds (Ranges signed) (set_options signed os s)
unfolding set_options
set_options-Ranges signed [] s ok = ok
set_options-Ranges signed (o ∷ os) s ok =
    go (set_option signed o s) (set_option-Ranges signed o s ok) (set_options-Ranges signed os)
  where
    go :
        (r : Option Settings)
        → Holds (Ranges signed) r
        → ((s' : Settings) → Ranges signed s' → Holds (Ranges signed) (set_options signed os s'))
        → Holds (Ranges signed) (r >>= set_options signed os)
    go none h rest = tt
    go (some s') h rest = rest s' h

-- What holds of accepted settings.
pub record Accepted (signed : Bool) (s : Settings) : Type 0 where
  pub ranges : Ranges signed s
  -- A fixed address comes with contiguous memory.
  pub address : s.contig_addr ≢ 0 → s.use_contiguous_mr ≢ 0
  -- Device memory comes with neither of the others.
  pub not_contiguous : s.use_dm ≡ true → s.use_contiguous_mr ≡ 0
  pub not_odp : s.use_dm ≡ true → s.use_odp ≡ false

address-kept : (a c : ℕ) → (not (a == 0) && (c == 0)) ≡ false → a ≢ 0 → c ≢ 0
address-kept a c e = ground arith

dm-alone :
    (dm odp_ : Bool) (c : ℕ)
    → (dm && (not (c == 0) || odp_)) ≡ false
    → dm ≡ true
    → (c ≡ 0) × (odp_ ≡ false)
dm-alone dm odp_ c e on = ground arith

check_settings-Accepted :
    (signed : Bool) (s : Settings) → Ranges signed s → Holds (Accepted signed) (check_settings s)
unfolding check_settings
check_settings-Accepted signed s ok =
    first (not (s.contig_addr == 0) && (s.use_contiguous_mr == 0)) refl
  where
    first :
        (b : Bool)
        → (not (s.contig_addr == 0) && (s.use_contiguous_mr == 0)) ≡ b
        → Holds (Accepted signed) (
            if b
            then none
            else unless_ (s.use_dm && (not (s.use_contiguous_mr == 0) || s.use_odp)) s)
    first true e = tt
    first false e =
        unless_-Holds (Accepted signed) (s.use_dm && (not (s.use_contiguous_mr == 0) || s.use_odp))
          s
          (λ e'. record {
            ranges = ok;
            address = address-kept s.contig_addr s.use_contiguous_mr e;
            not_contiguous = λ on. (dm-alone s.use_dm s.use_odp s.use_contiguous_mr e' on).0;
            not_odp = λ on. (dm-alone s.use_dm s.use_odp s.use_contiguous_mr e' on).1;
          })

initial-Ranges : (signed : Bool) → Ranges signed initial
unfolding mtu_negative
initial-Ranges signed = record {
  port_small = omega arith;
  ib_port_small = omega arith;
  mtu_known = refl;
}

abbrev pub Parsed : Bool → Option (Settings × Option (List ℕ)) → Type 0
Parsed signed none = Unit
Parsed signed (some (s, name)) = Accepted signed s

-- Whatever options and operands are given, `main` either ends with 1, or goes on with a TCP port of 16 bits, an
-- InfiniBand port that is not negative, an MTU that passes its test, a fixed address only with contiguous memory,
-- and device memory neither with contiguous memory nor with on-demand paging.
pub parse_arguments-Parsed :
    (signed : Bool) (os : List Opt) (operands : List (List ℕ))
    → Parsed signed (parse_arguments signed os operands)
unfolding parse_arguments
parse_arguments-Parsed signed os operands =
    first (set_options signed os initial)
      (set_options-Ranges signed os initial (initial-Ranges signed))
  where
    last :
        (name : Option (List ℕ)) (r : Option Settings)
        → Holds (Accepted signed) r
        → Parsed signed (r >>= λ s'. some (s', name))
    last name none h = tt
    last name (some s') h = h

    second :
        (s : Settings)
        → Ranges signed s
        → (n : Option (Option (List ℕ)))
        → Parsed signed (n >>= λ name. check_settings s >>= λ s'. some (s', name))
    second s h none = tt
    second s h (some name) = last name (check_settings s) (check_settings-Accepted signed s h)

    first :
        (r : Option Settings)
        → Holds (Ranges signed) r
        → Parsed signed
            (r >>= λ s. server_name operands >>= λ name. check_settings s >>= λ s'. some (s', name))
    first none h = tt
    first (some s) h = second s h (server_name operands)
