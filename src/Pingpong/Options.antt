-- ===== src/Pingpong/Options.antt =====
-- The command line of examples/libibverbs-examples/rc_pingpong.c: the loop over the options at the start of
-- `main`, and the checks behind it. `getopt_long` and `strtol` are library code: an option comes as
-- its letter, with the number that `strtol` reads in its argument as the bits of an integer.
pub mod Checks
use cs594_dcn_f.Prelude.{
  ℕ, zero, suc, ◌+◌, ◌-◌, ◌%◌, ◌^◌, Bool, true, false, not, ◌&&◌, ◌||◌, Option, none, some, List,
  [], ◌∷◌, leb, ◌==◌, if◌then◌else◌,
}
use cs594_dcn_f.Pingpong.Context.{Options}

-- `enum ibv_mtu`, with the -1 that `pp_mtu_to_enum` makes of a number that is no MTU.
pub data Mtu : Type 0 where
  mtu_256 mtu_512 mtu_1024 mtu_2048 mtu_4096 minus_one : Mtu

unfoldable pub pp_mtu_to_enum : ℕ → Mtu
pp_mtu_to_enum mtu =
    if mtu == 256
    then mtu_256
    else if mtu == 512
    then mtu_512
    else if mtu == 1024
    then mtu_1024
    else if mtu == 2048
    then mtu_2048
    else if mtu == 4096
    then mtu_4096
    else minus_one

-- The variables that the options set. A name is the list of its characters.
pub record Settings : Type 0 where
  pub ib_devname : Option (List ℕ)
  pub port : ℕ
  pub ib_port : ℕ
  pub size : ℕ
  pub mtu : Mtu
  pub rx_depth : ℕ
  pub iters : ℕ
  pub use_event : ℕ
  pub sl : ℕ
  pub gidx : ℕ
  pub inlr_recv : ℕ
  pub check_nop : Bool
  pub use_contiguous_mr : ℕ
  pub use_odp : Bool
  pub use_upstream : Bool
  pub contig_addr : ℕ
  pub use_ooo : Bool
  pub use_dm : Bool

-- The cases of the switch, by the long names of the options; `unknown` is all else.
pub data Opt : Type 0 where
  memic events contiguous_mr check_nop odp upstream ooo unknown : Opt
  port ib_port size mtu rx_depth iters sl gid_idx inline_recv contig_addr : ℕ → Opt
  ib_dev : List ℕ → Opt

-- A `long` that becomes an `int`; a negative one has its highest bit set.
abbrev pub to_int : ℕ → ℕ
to_int n = n % 2 ^ 32

abbrev pub negative : ℕ → Bool
negative n = leb (2 ^ 31) n

abbrev pub initial : Settings
initial = record {
  ib_devname = none;
  port = 18515;
  ib_port = 1;
  size = 4096;
  mtu = mtu_1024;
  rx_depth = 500;
  iters = 1000;
  use_event = 0;
  sl = 0;
  gidx = 2 ^ 32 - 1;
  inlr_recv = 0;
  check_nop = false;
  use_contiguous_mr = 0;
  use_odp = false;
  use_upstream = false;
  contig_addr = 0;
  use_ooo = false;
  use_dm = false;
}

-- `mtu < 0`: an enumeration is signed or not as the compiler decides from the library's declaration.
unfoldable pub mtu_negative : Bool → Mtu → Bool
mtu_negative signed minus_one = signed
mtu_negative signed _ = false

-- A test that ends `main` with its usage.
abbrev pub unless_ : Bool → Settings → Option Settings
unless_ true s = none
unless_ false s = some s

-- The switch.
unfoldable pub set_option : Bool → Opt → Settings → Option Settings
set_option signed memic s = some (record s { use_dm = true })
set_option signed (port n) s =
    unless_ (negative (to_int n) || leb 65536 (to_int n)) (record s { port = to_int n })
set_option signed (ib_dev name) s = some (record s { ib_devname = some name })
set_option signed (ib_port n) s = unless_ (negative (to_int n)) (record s { ib_port = to_int n })
set_option signed (size n) s = some (record s { size = n % 2 ^ 64 })
set_option signed (mtu n) s =
    unless_ (mtu_negative signed (pp_mtu_to_enum (to_int n)))
      (record s { mtu = pp_mtu_to_enum (to_int n) })
set_option signed (rx_depth n) s = some (record s { rx_depth = to_int n })
set_option signed (iters n) s = some (record s { iters = to_int n })
set_option signed (sl n) s = some (record s { sl = to_int n })
set_option signed events s = some (record s { use_event = (s.use_event + 1) % 2 ^ 32 })
set_option signed (gid_idx n) s = some (record s { gidx = to_int n })
set_option signed contiguous_mr s =
    some (record s { use_contiguous_mr = (s.use_contiguous_mr + 1) % 2 ^ 32 })
set_option signed (inline_recv n) s = some (record s { inlr_recv = to_int n })
set_option signed check_nop s = some (record s { check_nop = true })
set_option signed odp s = some (record s { use_odp = true })
set_option signed upstream s = some (record s { use_upstream = true })
set_option signed (contig_addr n) s = some (record s { contig_addr = n % 2 ^ 64 })
set_option signed ooo s = some (record s { use_ooo = true })
set_option signed unknown s = none

infixl 5 ◌>>=◌
abbrev pub ◌>>=◌ : {A B : Type 0} → Option A → (A → Option B) → Option B
none >>= f = none
some a >>= f = f a

-- The loop.
unfoldable pub set_options : Bool → List Opt → Settings → Option Settings
set_options signed [] s = some s
set_options signed (o ∷ os) s = set_option signed o s >>= set_options signed os

-- The operands: none is a server, one is a client with the name of its server, more are an error.
unfoldable pub server_name : List (List ℕ) → Option (Option (List ℕ))
server_name [] = some none
server_name (name ∷ []) = some (some name)
server_name (name ∷ _ ∷ _) = none

-- The two tests behind the loop.
unfoldable pub check_settings : Settings → Option Settings
check_settings s =
    if not (s.contig_addr == 0) && (s.use_contiguous_mr == 0)
    then none
    else unless_ (s.use_dm && (not (s.use_contiguous_mr == 0) || s.use_odp)) s

-- `main` until it looks for devices; `none` is the return of 1.
unfoldable pub parse_arguments :
    Bool → List Opt → List (List ℕ) → Option (Settings × Option (List ℕ))
parse_arguments signed os operands = do
  s ← set_options signed os initial
  name ← server_name operands
  s' ← check_settings s
  some (s', name)

-- What `pp_init_ctx` reads of them.
unfoldable pub init_options : Settings → Options
init_options s = record {
  use_contiguous_mr = not (s.use_contiguous_mr == 0);
  use_odp = s.use_odp;
  use_dm = s.use_dm;
  use_upstream = s.use_upstream;
  use_event = not (s.use_event == 0);
  inlr_recv = s.inlr_recv;
}
