-- ===== src/Pingpong/Gid.antt =====
-- The text form of a GID, `gid_to_wire_gid` and `wire_gid_to_gid` of
-- examples/libibverbs-examples/pingpong.c. A GID is the list of its four 32-bit words, a text the list of
-- its characters; `htonl` and `ntohl` are parameters.
pub mod RoundTrip
use cs594_dcn_f.Prelude.{
  ℕ, zero, suc, ◌+◌, ◌-◌, ◌*◌, ◌/◌, ◌%◌, ◌^◌, Bool, true, false, ◌&&◌, ◌||◌, ◌==◌, Option, none,
  some, List, [], ◌∷◌, ◌++◌, take, drop, ltb, leb, if◌then◌else◌,
}

-- A digit of `%x`, as a character, and the value of such a character.
abbrev pub hex_digit : ℕ → ℕ
hex_digit d = if ltb d 10 then 48 + d else 87 + d

abbrev pub digit_value : ℕ → Option ℕ
digit_value c =
    if leb 48 c && leb c 57
    then some (c - 48)
    else if leb 97 c && leb c 102
    then some (c - 87)
    else if leb 65 c && leb c 70
    then some (c - 55)
    else none

-- `sprintf` with `%0kx`, for a number of at most `k` digits.
unfoldable pub print_hex : ℕ → ℕ → List ℕ
print_hex zero n = []
print_hex (suc k) n = print_hex k (n / 16) ++ hex_digit (n % 16) ∷ []

-- The value of the digits up to the first other character, and what they leave of the text.
unfoldable pub scan_from : ℕ → List ℕ → ℕ
scan_from acc [] = acc
scan_from acc (c ∷ cs) = elim (digit_value c) [ none ↦ acc | some d ↦ scan_from (acc * 16 + d) cs ]

abbrev pub starts_hex : List ℕ → Bool
starts_hex [] = false
starts_hex (c ∷ cs) = elim (digit_value c) [ none ↦ false | some d ↦ true ]

unfoldable pub after_hex : List ℕ → List ℕ
after_hex [] = []
after_hex (c ∷ cs) = elim (digit_value c) [ none ↦ c ∷ cs | some d ↦ after_hex cs ]

-- `isspace`.
abbrev pub is_blank : ℕ → Bool
is_blank c = c == 32 || (leb 9 c && leb c 13)

unfoldable pub skip_blanks : List ℕ → List ℕ
skip_blanks [] = []
skip_blanks (c ∷ cs) = let rest = skip_blanks cs in if is_blank c then rest else (c ∷ cs)

-- A sign, and `0x`.
abbrev pub has_minus : List ℕ → Bool
has_minus [] = false
has_minus (c ∷ cs) = c == 45

abbrev pub skip_sign : List ℕ → List ℕ
skip_sign [] = []
skip_sign (c ∷ cs) = if c == 43 || c == 45 then cs else (c ∷ cs)

abbrev pub is_x : ℕ → Bool
is_x c = c == 120 || c == 88

abbrev pub skip_prefix : List ℕ → List ℕ
skip_prefix [] = []
skip_prefix (c ∷ []) = c ∷ []
skip_prefix (c ∷ x ∷ cs) = if c == 48 && is_x x then cs else (c ∷ x ∷ cs)

-- The `unsigned int` in which a number arrives: it is read as an `unsigned long`, whose largest value
-- stands for all that are larger, and cut to 32 bits.
abbrev pub to_unsigned : Bool → ℕ → ℕ
to_unsigned minus v =
    if leb (2 ^ 64) v
    then 2 ^ 32 - 1
    else if minus
    then (2 ^ 32 - v % 2 ^ 32) % 2 ^ 32
    else v % 2 ^ 32

-- `sscanf` with `%x`: the number and what is left of the text; `none` if there is no number, when the
-- variable keeps its value.
unfoldable pub scan_number : List ℕ → Option (ℕ × List ℕ)
scan_number cs =
    let text = skip_blanks cs in
    let digits = skip_prefix (skip_sign text) in
    if starts_hex digits
    then some (to_unsigned (has_minus text) (scan_from 0 digits), after_hex digits)
    else none

-- The number alone.
unfoldable pub scan_hex : List ℕ → Option ℕ
scan_hex cs = elim (scan_number cs) [ none ↦ none | some r ↦ some r.0 ]

-- The variable `v32` after a scan; `none` is a variable that has no value yet.
abbrev pub scanned : Option ℕ → Option ℕ → Option ℕ
scanned v32 none = v32
scanned v32 (some v) = some v

unfoldable pub gid_to_wire_gid : (ℕ → ℕ) → List ℕ → List ℕ
gid_to_wire_gid htonl [] = []
gid_to_wire_gid htonl (w ∷ ws) = print_hex 8 (htonl w) ++ gid_to_wire_gid htonl ws

-- One word before the rest; the use of `v32` before it has a value is `none`.
abbrev pub word : (ℕ → ℕ) → Option ℕ → Option (List ℕ) → Option (List ℕ)
word ntohl none rest = none
word ntohl (some v) none = none
word ntohl (some v) (some ws) = some (ntohl v ∷ ws)

-- The loop of `wire_gid_to_gid`, with `k` words to go.
unfoldable pub read_words : (ℕ → ℕ) → ℕ → Option ℕ → List ℕ → Option (List ℕ)
read_words ntohl zero v32 wgid = some []
read_words ntohl (suc k) v32 wgid =
    let next = scanned v32 (scan_hex (take 8 wgid)) in
    word ntohl next (read_words ntohl k next (drop 8 wgid))

unfoldable pub wire_gid_to_gid : (ℕ → ℕ) → List ℕ → Option (List ℕ)
wire_gid_to_gid ntohl wgid = read_words ntohl 4 none wgid
