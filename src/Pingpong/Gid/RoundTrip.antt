-- ===== src/Pingpong/Gid/RoundTrip.antt =====
-- The text form of a GID, written and read: examples/libibverbs-examples/pingpong.c.
use cs594_dcn_f.Prelude.{
  ℕ, zero, suc, ◌+◌, ◌*◌, ◌/◌, ◌%◌, ◌^◌, ◌<◌, ◌≡◌, refl, sym, ap, ◌∙◌, Bool, true, false, ◌||◌,
  ◌==◌, Option, none, some, List, [], ◌∷◌, ◌++◌, take, drop, length, length-append, append_assoc,
  append-nil, take-append_self, drop-append_self, if◌then◌else◌, arith,
}
use native.Mathlib.Nat.{pow-suc}
use cs594_dcn_f.Pingpong.Gid.{
  hex_digit, digit_value, print_hex, scan_from, starts_hex, scan_hex, scan_number, skip_blanks,
  is_blank, is_x, to_unsigned, after_hex, scanned, gid_to_wire_gid, word, read_words,
  wire_gid_to_gid,
}

pub digit_value-hex_digit : (d : ℕ) → d < 16 → digit_value (hex_digit d) ≡ some d
digit_value-hex_digit d small = ground arith

pub length-print_hex : (k n : ℕ) → length (print_hex k n) ≡ k
unfolding print_hex
length-print_hex zero n = refl
length-print_hex (suc k) n =
    length-append (print_hex k (n / 16)) (hex_digit (n % 16) ∷ [])
    ∙ ground (arith, length-print_hex k (n / 16))

scan_digit :
    (acc d : ℕ) (rest : List ℕ)
    → d < 16
    → scan_from acc (hex_digit d ∷ rest) ≡ scan_from (acc * 16 + d) rest
unfolding scan_from
scan_digit acc d rest small = rw (digit_value-hex_digit d small, scan_from) refl

pow_step : (k : ℕ) → 16 ^ suc k ≡ 16 ^ k * 16
pow_step k = pow-suc 16 k

pub scan_from-print_hex :
    (k n : ℕ) (rest : List ℕ) → n < 16 ^ k → scan_from 0 (print_hex k n ++ rest) ≡ scan_from n rest
unfolding print_hex
scan_from-print_hex zero n rest small = ap (λ m. scan_from m rest) (omega arith)
scan_from-print_hex (suc k) n rest small =
    ap (scan_from 0) (append_assoc (print_hex k (n / 16)) (hex_digit (n % 16) ∷ []) rest)
    ∙ scan_from-print_hex k (n / 16) (hex_digit (n % 16) ∷ rest) (omega (arith, pow_step k))
    ∙ scan_digit (n / 16) (n % 16) rest (omega arith)
    ∙ ap (λ m. scan_from m rest) (omega arith)

pub starts_hex-append : (xs ys : List ℕ) → starts_hex xs ≡ true → starts_hex (xs ++ ys) ≡ true
starts_hex-append [] ys h = absurd (cc)
starts_hex-append (x ∷ xs) ys h = h

pub starts_hex-print_hex : (k n : ℕ) → starts_hex (print_hex (suc k) n) ≡ true
unfolding print_hex
starts_hex-print_hex zero n = rw (digit_value-hex_digit (n % 16) (omega arith), starts_hex) refl
starts_hex-print_hex (suc k) n =
    starts_hex-append (print_hex (suc k) (n / 16)) (hex_digit (n % 16) ∷ [])
      (starts_hex-print_hex k (n / 16))

pub after_hex-print_hex :
    (k n : ℕ) (rest : List ℕ) → after_hex (print_hex k n ++ rest) ≡ after_hex rest
unfolding print_hex after_hex
after_hex-print_hex zero n rest = refl
after_hex-print_hex (suc k) n rest =
    ap after_hex (append_assoc (print_hex k (n / 16)) (hex_digit (n % 16) ∷ []) rest)
    ∙ after_hex-print_hex k (n / 16) (hex_digit (n % 16) ∷ rest)
    ∙ rw (digit_value-hex_digit (n % 16) (omega arith), after_hex)

-- A text that begins with neither a blank, a sign nor `0x`.
abbrev pub is_plain : List ℕ → Bool
is_plain [] = false
is_plain (c ∷ []) = false
is_plain (c ∷ x ∷ cs) =
    if is_blank c
    then false
    else if c == 43 || c == 45
    then false
    else if is_x x
    then false
    else true

scan_plain :
    (cs : List ℕ)
    → is_plain cs ≡ true
    → starts_hex cs ≡ true
    → scan_number cs ≡ some (to_unsigned false (scan_from 0 cs), after_hex cs)
unfolding scan_number skip_blanks
scan_plain [] h t = absurd (cc)
scan_plain (c ∷ []) h t = absurd (cc)
scan_plain (c ∷ x ∷ cs) h t = ground arith

hex_digit-is_plain :
    (d y : ℕ) (rest : List ℕ) → d < 16 → is_x y ≡ false → is_plain (hex_digit d ∷ y ∷ rest) ≡ true
hex_digit-is_plain d y rest small other = ground arith

hex_digit-is_x : (d : ℕ) → d < 16 → is_x (hex_digit d) ≡ false
hex_digit-is_x d small = ground arith

pub print_hex-is_plain :
    (k n y : ℕ) (rest : List ℕ)
    → is_x y ≡ false
    → is_plain (print_hex (suc k) n ++ (y ∷ rest)) ≡ true
unfolding print_hex
print_hex-is_plain zero n y rest other = hex_digit-is_plain (n % 16) y rest (omega arith) other
print_hex-is_plain (suc k) n y rest other =
    ap is_plain (append_assoc (print_hex (suc k) (n / 16)) (hex_digit (n % 16) ∷ []) (y ∷ rest))
    ∙ print_hex-is_plain k (n / 16) (hex_digit (n % 16)) (y ∷ rest)
        (hex_digit-is_x (n % 16) (omega arith))

print_hex-is_plain_alone : (k n : ℕ) → is_plain (print_hex (suc (suc k)) n) ≡ true
unfolding print_hex
print_hex-is_plain_alone k n =
    print_hex-is_plain k (n / 16) (hex_digit (n % 16)) [] (hex_digit-is_x (n % 16) (omega arith))

pub to_unsigned_small : (n : ℕ) → n < 2 ^ 32 → to_unsigned false n ≡ n
to_unsigned_small n small = ground arith

pub scan_number-print_hex :
    (k n : ℕ) (rest : List ℕ)
    → n < 16 ^ suc k
    → n < 2 ^ 32
    → is_plain (print_hex (suc k) n ++ rest) ≡ true
    → scan_number (print_hex (suc k) n ++ rest)
      ≡ some (to_unsigned false (scan_from n rest), after_hex rest)
scan_number-print_hex k n rest small fits plain =
    scan_plain (print_hex (suc k) n ++ rest) plain
      (starts_hex-append (print_hex (suc k) n) rest (starts_hex-print_hex k n))
    ∙ rw (scan_from-print_hex (suc k) n rest small, after_hex-print_hex (suc k) n rest) refl

scan_hex-print_hex : (n : ℕ) → n < 2 ^ 32 → scan_hex (print_hex 8 n) ≡ some n
unfolding scan_hex scan_from
scan_hex-print_hex n small =
    let plain : is_plain (print_hex 8 n ++ []) ≡ true =
      ap is_plain (append-nil (print_hex 8 n)) ∙ print_hex-is_plain_alone 6 n in
    let scan = scan_number-print_hex 7 n [] (omega arith) small plain in
    ap scan_hex (sym (append-nil (print_hex 8 n)))
    ∙ rw (scan, scan_hex) (ap some (to_unsigned_small n small))

print_hex-drop : (n : ℕ) (rest : List ℕ) → drop 8 (print_hex 8 n ++ rest) ≡ rest
print_hex-drop n rest =
    ap (λ k. drop k (print_hex 8 n ++ rest)) (sym (length-print_hex 8 n))
    ∙ drop-append_self (print_hex 8 n) rest

print_hex-take : (n : ℕ) (rest : List ℕ) → take 8 (print_hex 8 n ++ rest) ≡ print_hex 8 n
print_hex-take n rest =
    ap (λ k. take k (print_hex 8 n ++ rest)) (sym (length-print_hex 8 n))
    ∙ take-append_self (print_hex 8 n) rest

module _ (htonl ntohl : ℕ → ℕ) (fits : (w : ℕ) → htonl w < 2 ^ 32) where
  -- Every word comes back from the network.
  abbrev pub Known : List ℕ → Type 0
  Known [] = Unit
  Known (w ∷ ws) = (ntohl (htonl w) ≡ w) × Known ws

  pub read_words-gid_to_wire_gid :
      (gid rest : List ℕ) (v32 : Option ℕ)
      → Known gid
      → read_words ntohl (length gid) v32 (gid_to_wire_gid htonl gid ++ rest) ≡ some gid
  unfolding read_words gid_to_wire_gid
  read_words-gid_to_wire_gid [] after v32 known = refl
  read_words-gid_to_wire_gid (w ∷ ws) after v32 known =
      let text : List ℕ = gid_to_wire_gid htonl ws ++ after in
      let ends : List ℕ = print_hex 8 (htonl w) ++ text in
      let found : scan_hex (take 8 ends) ≡ some (htonl w) =
        ap scan_hex (print_hex-take (htonl w) text) ∙ scan_hex-print_hex (htonl w) (fits w) in
      let rest = read_words-gid_to_wire_gid ws after (some (htonl w)) known.1 in
      ap (read_words ntohl (suc (length ws)) v32)
        (append_assoc (print_hex 8 (htonl w)) (gid_to_wire_gid htonl ws) after)
      ∙ ap
          (λ z.
            word ntohl (scanned v32 z) (read_words ntohl (length ws) (scanned v32 z) (drop 8 ends)))
          found
      ∙ ap (λ t. word ntohl (some (htonl w)) (read_words ntohl (length ws) (some (htonl w)) t))
          (print_hex-drop (htonl w) text)
      ∙ ap (word ntohl (some (htonl w))) rest
      ∙ ap (λ x. some (x ∷ ws)) known.0

pub length-gid_to_wire_gid :
    (htonl : ℕ → ℕ) (gid : List ℕ) → length (gid_to_wire_gid htonl gid) ≡ 8 * length gid
unfolding gid_to_wire_gid
length-gid_to_wire_gid htonl [] = refl
length-gid_to_wire_gid htonl (w ∷ ws) =
    length-append (print_hex 8 (htonl w)) (gid_to_wire_gid htonl ws)
    ∙ omega (arith, length-print_hex 8 (htonl w), length-gid_to_wire_gid htonl ws)

-- The text of a GID has 32 characters, one less than the arrays that hold it, and reading it gives the
-- GID back, where its words are 32-bit numbers, `htonl` gives 32-bit numbers, and `ntohl` undoes it.
pub wire_gid_to_gid-gid_to_wire_gid :
    (htonl ntohl : ℕ → ℕ) (a b c d : ℕ)
    → ((w : ℕ) → htonl w < 2 ^ 32)
    → ((w : ℕ) → w < 2 ^ 32 → ntohl (htonl w) ≡ w)
    → a < 2 ^ 32
    → b < 2 ^ 32
    → c < 2 ^ 32
    → d < 2 ^ 32
    → (length (gid_to_wire_gid htonl (a ∷ b ∷ c ∷ d ∷ [])) ≡ 32)
      × (wire_gid_to_gid ntohl (gid_to_wire_gid htonl (a ∷ b ∷ c ∷ d ∷ []))
          ≡ some (a ∷ b ∷ c ∷ d ∷ []))
unfolding wire_gid_to_gid
wire_gid_to_gid-gid_to_wire_gid htonl ntohl a b c d fits undoes ha hb hc hd = (
  length-gid_to_wire_gid htonl (a ∷ b ∷ c ∷ d ∷ []),
  ap (read_words ntohl 4 none) (sym (append-nil (gid_to_wire_gid htonl (a ∷ b ∷ c ∷ d ∷ []))))
      ∙ read_words-gid_to_wire_gid htonl ntohl fits (a ∷ b ∷ c ∷ d ∷ []) [] none
          (undoes a ha, (undoes b hb, (undoes c hc, (undoes d hd, tt)))),
)
