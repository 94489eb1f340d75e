-- ===== src/Pingpong/Srq/Options.antt =====
-- The command line of examples/libibverbs-examples/srq_pingpong.c: the loop over the options at the start of `main`, and the
-- checks behind it. An option comes as its letter, with the number that `strtol` reads in its argument.
pub mod Checks
use cs594_dcn_f.Prelude.{
  ℕ, ◌+◌, ◌-◌, ◌%◌, ◌^◌, Bool, true, false, ◌||◌, Option, none, some, List, [], ◌∷◌, ltb, leb,
  if◌then◌else◌,
}
use cs594_dcn_f.Pingpong.Options.{
  Mtu, mtu_1024, pp_mtu_to_enum, mtu_negative, to_int, negative, server_name, ◌>>=◌,
}

-- The variables that the options set.
pub record SrqSettings : Type 0 where
  pub ib_devname : Option (List ℕ)
  pub port : ℕ
  pub ib_port : ℕ
  pub size : ℕ
  pub mtu : Mtu
  pub num_qp : ℕ
  pub rx_depth : ℕ
  pub iters : ℕ
  pub use_event : ℕ
  pub sl : ℕ
  pub gidx : ℕ

-- The cases of the switch, by the long names of the options; `unknown` is all else.
pub data SrqOpt : Type 0 where
  events unknown : SrqOpt
  port ib_port size mtu num_qp rx_depth iters sl gid_idx : ℕ → SrqOpt
  ib_dev : List ℕ → SrqOpt

abbrev pub initial : SrqSettings
initial = record {
  ib_devname = none;
  port = 18515;
  ib_port = 1;
  size = 4096;
  mtu = mtu_1024;
  num_qp = 16;
  rx_depth = 500;
  iters = 1000;
  use_event = 0;
  sl = 0;
  gidx = 2 ^ 32 - 1;
}

-- A test that ends `main` with 1.
abbrev pub unless_ : Bool → SrqSettings → Option SrqSettings
unless_ true s = none
unless_ false s = some s

-- The switch.
unfoldable pub set_option : Bool → SrqOpt → SrqSettings → Option SrqSettings
set_option signed (port n) s =
    unless_ (negative (to_int n) || leb 65536 (to_int n)) (record s { port = to_int n })
set_option signed (ib_dev name) s = some (record s { ib_devname = some name })
set_option signed (ib_port n) s = unless_ (negative (to_int n)) (record s { ib_port = to_int n })
set_option signed (size n) s = some (record s { size = to_int n })
set_option signed (mtu n) s =
    unless_ (mtu_negative signed (pp_mtu_to_enum (to_int n)))
      (record s { mtu = pp_mtu_to_enum (to_int n) })
set_option signed (num_qp n) s = some (record s { num_qp = to_int n })
set_option signed (rx_depth n) s = some (record s { rx_depth = to_int n })
set_option signed (iters n) s = some (record s { iters = to_int n })
set_option signed (sl n) s = some (record s { sl = to_int n })
set_option signed events s = some (record s { use_event = (s.use_event + 1) % 2 ^ 32 })
set_option signed (gid_idx n) s = some (record s { gidx = to_int n })
set_option signed unknown s = none

-- The loop.
unfoldable pub set_options : Bool → List SrqOpt → SrqSettings → Option SrqSettings
set_options signed [] s = some s
set_options signed (o ∷ os) s = set_option signed o s >>= set_options signed os

-- `a > b` of two `int`s.
abbrev pub above : ℕ → ℕ → Bool
above a b = ltb ((b + 2 ^ 31) % 2 ^ 32) ((a + 2 ^ 31) % 2 ^ 32)

-- Each queue pair must have a receive.
unfoldable pub check_settings : SrqSettings → Option SrqSettings
check_settings s = unless_ (above s.num_qp s.rx_depth) s

-- `main` until it looks for devices; `none` is the return of 1.
unfoldable pub parse_arguments :
    Bool → List SrqOpt → List (List ℕ) → Option (SrqSettings × Option (List ℕ))
parse_arguments signed os operands = do
  s ← set_options signed os initial
  name ← server_name operands
  s' ← check_settings s
  some (s', name)
