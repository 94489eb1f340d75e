-- ===== src/Pingpong/Dest.antt =====
-- The message in which two programs of examples/libibverbs-examples/rc_pingpong.c tell each other
-- where they are: the `sprintf` and the `sscanf` of `pp_client_exch_dest` and `pp_server_exch_dest`.
pub mod RoundTrip
use cs594_dcn_f.Prelude.{
  ℕ, zero, suc, ◌+◌, Bool, true, false, ◌||◌, Option, none, some, List, [], ◌∷◌, ◌++◌, length, drop,
  leb, ◌==◌, if◌then◌else◌,
}
use cs594_dcn_f.Pingpong.Gid.{
  print_hex, scan_number, is_blank, skip_blanks, gid_to_wire_gid, wire_gid_to_gid,
}

-- `struct pingpong_dest`; the GID as its four words.
pub record PingpongDest : Type 0 where
  pub lid : ℕ
  pub qpn : ℕ
  pub psn : ℕ
  pub gid : List ℕ

-- `sizeof msg`.
abbrev pub message_size : ℕ
message_size = 52

abbrev pub colon : ℕ
colon = 58

infixl 5 ◌>>=◌
abbrev ◌>>=◌ : {A B : Type 0} → Option A → (A → Option B) → Option B
none >>= f = none
some a >>= f = f a

-- The array `msg` after the `sprintf`, its NUL included, for numbers that fit their fields.
unfoldable pub dest_message : (ℕ → ℕ) → PingpongDest → List ℕ
dest_message htonl dest =
    print_hex 4 dest.lid
    ++ (colon
        ∷ (print_hex 6 dest.qpn
            ++ (colon
                ∷ (print_hex 6 dest.psn ++ (colon ∷ (gid_to_wire_gid htonl dest.gid ++ 0 ∷ []))))))

-- The text in an array; an array without a NUL holds none, and its use as one reads past its end.
abbrev pub has_nul : List ℕ → Bool
has_nul [] = false
has_nul (c ∷ cs) = if c == 0 then true else has_nul cs

abbrev pub text_of : List ℕ → Option (List ℕ)
text_of msg = if has_nul msg then some msg else none

-- `%x:`, with a number and the text behind the colon.
abbrev pub behind_colon : ℕ → List ℕ → Option (ℕ × List ℕ)
behind_colon n [] = none
behind_colon n (c ∷ cs) = if c == colon then some (n, cs) else none

unfoldable pub scan_field : List ℕ → Option (ℕ × List ℕ)
scan_field cs = elim (scan_number cs) [ none ↦ none | some r ↦ behind_colon r.0 r.1 ]

-- `%s`, behind the blanks: the characters up to a NUL or the next blank.
abbrev pub is_end : ℕ → Bool
is_end c = c == 0 || is_blank c

unfoldable pub scan_word : List ℕ → List ℕ
scan_word [] = []
scan_word (c ∷ cs) = if is_end c then [] else (c ∷ scan_word cs)

-- The reading of the GID from the array `gid`: a text of more than 32 characters overflows the
-- array, and a shorter one leaves characters there which are not the peer's; both are `none`.
unfoldable pub scan_gid : (ℕ → ℕ) → List ℕ → Option (List ℕ)
scan_gid ntohl text = if length text == 32 then wire_gid_to_gid ntohl text else none

-- The `sscanf` and `wire_gid_to_gid` behind it, from an array `gid` with nothing in it; `none` if a
-- field of `*rem_dest` is left with no value.
unfoldable pub scan_dest : (ℕ → ℕ) → List ℕ → Option PingpongDest
scan_dest ntohl msg = do
  text ← text_of msg
  (lid, msg1) ← scan_field text
  (qpn, msg2) ← scan_field msg1
  (psn, msg3) ← scan_field msg2
  gid ← scan_gid ntohl (scan_word (skip_blanks msg3))
  some (record { lid = lid; qpn = qpn; psn = psn; gid = gid })

-- A `struct pingpong_dest` in which a field has no value until it is assigned.
pub record Draft : Type 0 where
  pub lid : Option ℕ
  pub qpn : Option ℕ
  pub psn : Option ℕ
  pub gid : Option (List ℕ)

abbrev pub whole : PingpongDest → Draft
whole dest = record {
  lid = some dest.lid;
  qpn = some dest.qpn;
  psn = some dest.psn;
  gid = some dest.gid;
}

-- What `k` directives `%x:` in a row assign, up to the first that does not match, and the text behind
-- them all.
unfoldable pub scan_fields : ℕ → List ℕ → List ℕ × Option (List ℕ)
scan_fields zero cs = ([], some cs)
scan_fields (suc k) cs = elim (scan_number cs) [
  | none ↦ ([], none)
  | some r ↦ elim (behind_colon r.0 r.1) [
    | none ↦ (r.0 ∷ [], none)
    | some t ↦ (let rest = scan_fields k t.1 in (r.0 ∷ rest.0, rest.1))
  ]
]

-- The `i`-th number that has been assigned.
abbrev pub assigned : ℕ → List ℕ → Option ℕ
assigned i [] = none
assigned zero (n ∷ ns) = some n
assigned (suc i) (n ∷ ns) = assigned i ns

-- The array `gid` of 33 characters after a `%s`: the word and its NUL take the place of what was there. A
-- longer word than 32 characters overflows the array, which is `none`; no word leaves it as it is.
abbrev pub overwrite : List ℕ → List ℕ → Option (List ℕ)
overwrite gid [] = some gid
overwrite gid (c ∷ cs) =
    if leb (length (c ∷ cs)) 32 then some (c ∷ cs ++ 0 ∷ drop (suc (length (c ∷ cs))) gid) else none

abbrev pub word_into : List ℕ → Option (List ℕ) → Option (List ℕ)
word_into gid none = some gid
word_into gid (some text) = overwrite gid (scan_word (skip_blanks text))

-- The `sscanf` of `msg` alone, with the array `gid` before it; `none` if it leaves an array's bounds.
unfoldable pub scan_array : List ℕ → List ℕ → Option (List ℕ)
scan_array gid msg = if has_nul msg then word_into gid (scan_fields 3 msg).1 else none

-- What `*rem_dest` holds after the `sscanf`, whose result nobody looks at, and `wire_gid_to_gid`, when the
-- array is `gid`: a field that no directive has reached has no value.
unfoldable pub read_draft : (ℕ → ℕ) → List ℕ → List ℕ → Draft
read_draft ntohl gid msg =
    let numbers = (scan_fields 3 msg).0 in
    record {
      lid = assigned 0 numbers;
      qpn = assigned 1 numbers;
      psn = assigned 2 numbers;
      gid = wire_gid_to_gid ntohl gid;
    }

-- Both, with an array `gid` that already holds a text; `none` if an array's bounds are left.
unfoldable pub scan_draft : (ℕ → ℕ) → List ℕ → List ℕ → Option Draft
scan_draft ntohl gid msg = elim (scan_array gid msg) [
  | none ↦ none
  | some gid' ↦ some (read_draft ntohl gid' msg)
]
