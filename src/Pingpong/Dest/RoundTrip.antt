-- ===== src/Pingpong/Dest/RoundTrip.antt =====
-- The message of one program, read by the other.
use cs594_dcn_f.Prelude.{
  ℕ, Option, zero, suc, ◌/◌, ◌%◌, ◌^◌, ◌<◌, ◌≡◌, refl, Bool-cases, inl, inr, leb, drop, append-nil,
  sym, ap, ◌∙◌, true, false, none, some, List, [], ◌∷◌, ◌++◌, length, length-append, append_assoc,
  ◌==◌, if◌then◌else◌, arith,
}
use cs594_dcn_f.Pingpong.Gid.{
  hex_digit, print_hex, scan_from, after_hex, scan_number, skip_blanks, starts_hex, gid_to_wire_gid,
  wire_gid_to_gid, read_words,
}
use cs594_dcn_f.Pingpong.Gid.RoundTrip.{
  scan_number-print_hex, print_hex-is_plain, to_unsigned_small, length-print_hex,
  starts_hex-print_hex, starts_hex-append, length-gid_to_wire_gid, Known,
  read_words-gid_to_wire_gid,
}
use cs594_dcn_f.Pingpong.Dest.{
  PingpongDest, dest_message, scan_field, scan_fields, has_nul, is_end, scan_word, overwrite,
  read_draft, scan_array, Draft, assigned, word_into, scan_draft, whole, scan_gid, scan_dest, colon,
  message_size,
}

-- The number in front of a colon.
number-print_hex :
    (k n : ℕ) (rest : List ℕ)
    → n < 16 ^ suc k
    → n < 2 ^ 32
    → scan_number (print_hex (suc k) n ++ (colon ∷ rest)) ≡ some (n, colon ∷ rest)
unfolding scan_from after_hex
number-print_hex k n rest small fits =
    scan_number-print_hex k n (colon ∷ rest) small fits (print_hex-is_plain k n colon rest refl)
    ∙ ap (λ m. some (m, colon ∷ rest)) (to_unsigned_small n fits)

scan_field-print_hex :
    (k n : ℕ) (rest : List ℕ)
    → n < 16 ^ suc k
    → n < 2 ^ 32
    → scan_field (print_hex (suc k) n ++ (colon ∷ rest)) ≡ some (n, rest)
unfolding scan_field
scan_field-print_hex k n rest small fits =
    rw (number-print_hex k n rest small fits, scan_field) refl

scan_fields-print_hex :
    (i k n : ℕ) (rest : List ℕ)
    → n < 16 ^ suc k
    → n < 2 ^ 32
    → scan_fields (suc i) (print_hex (suc k) n ++ (colon ∷ rest))
      ≡ (n ∷ (scan_fields i rest).0, (scan_fields i rest).1)
unfolding scan_fields
scan_fields-print_hex i k n rest small fits =
    rw (number-print_hex k n rest small fits, scan_fields) refl

has_nul-append : (xs ys : List ℕ) → has_nul ys ≡ true → has_nul (xs ++ ys) ≡ true
has_nul-append [] ys h = h
has_nul-append (x ∷ xs) ys h = elim (Bool-cases (x == 0)) [
  | inl e ↦ rw (e, has_nul) refl
  | inr e ↦ rw (e, has_nul) (has_nul-append xs ys h)
]

hex_digit-is_end : (d : ℕ) → d < 16 → is_end (hex_digit d) ≡ false
hex_digit-is_end d small = ground arith

scan_word-print_hex :
    (k n : ℕ) (rest : List ℕ) → scan_word (print_hex k n ++ rest) ≡ print_hex k n ++ scan_word rest
unfolding print_hex scan_word
scan_word-print_hex zero n rest = refl
scan_word-print_hex (suc k) n rest =
    ap scan_word (append_assoc (print_hex k (n / 16)) (hex_digit (n % 16) ∷ []) rest)
    ∙ scan_word-print_hex k (n / 16) (hex_digit (n % 16) ∷ rest)
    ∙ ap (◌++◌ (print_hex k (n / 16)))
        (rw (hex_digit-is_end (n % 16) (omega arith), scan_word) refl)
    ∙ sym (append_assoc (print_hex k (n / 16)) (hex_digit (n % 16) ∷ []) (scan_word rest))

scan_word-gid_to_wire_gid :
    (htonl : ℕ → ℕ) (gid : List ℕ)
    → scan_word (gid_to_wire_gid htonl gid ++ 0 ∷ []) ≡ gid_to_wire_gid htonl gid
unfolding gid_to_wire_gid scan_word
scan_word-gid_to_wire_gid htonl [] = refl
scan_word-gid_to_wire_gid htonl (w ∷ ws) =
    ap scan_word (append_assoc (print_hex 8 (htonl w)) (gid_to_wire_gid htonl ws) (0 ∷ []))
    ∙ scan_word-print_hex 8 (htonl w) (gid_to_wire_gid htonl ws ++ 0 ∷ [])
    ∙ ap (◌++◌ (print_hex 8 (htonl w))) (scan_word-gid_to_wire_gid htonl ws)

starts_hex-skip_blanks : (cs : List ℕ) → starts_hex cs ≡ true → skip_blanks cs ≡ cs
unfolding skip_blanks
starts_hex-skip_blanks [] h = refl
starts_hex-skip_blanks (c ∷ cs) h = ground arith

skip-gid_to_wire_gid :
    (htonl : ℕ → ℕ) (gid : List ℕ)
    → skip_blanks (gid_to_wire_gid htonl gid ++ 0 ∷ []) ≡ gid_to_wire_gid htonl gid ++ 0 ∷ []
unfolding gid_to_wire_gid skip_blanks
skip-gid_to_wire_gid htonl [] = refl
skip-gid_to_wire_gid htonl (w ∷ ws) =
    starts_hex-skip_blanks ((print_hex 8 (htonl w) ++ gid_to_wire_gid htonl ws) ++ 0 ∷ []) (
      starts_hex-append (print_hex 8 (htonl w) ++ gid_to_wire_gid htonl ws) (0 ∷ []) (
        starts_hex-append (print_hex 8 (htonl w)) (gid_to_wire_gid htonl ws)
          (starts_hex-print_hex 7 (htonl w))))

overwrite_lem :
    (gid word : List ℕ)
    → length word ≡ 32
    → overwrite gid word ≡ some (word ++ 0 ∷ drop (suc (length word)) gid)
overwrite_lem gid [] size = absurd (omega (arith, size))
overwrite_lem gid (c ∷ cs) size =
    ap (λ n. if leb n 32 then some (c ∷ cs ++ 0 ∷ drop (suc (length (c ∷ cs))) gid) else none) size

scan_draft_lem :
    (ntohl : ℕ → ℕ) (array msg numbers text array' : List ℕ)
    → has_nul msg ≡ true
    → scan_fields 3 msg ≡ (numbers, some text)
    → overwrite array (scan_word (skip_blanks text)) ≡ some array'
    → scan_draft ntohl array msg
      ≡ some (record {
        lid = assigned 0 numbers;
        qpn = assigned 1 numbers;
        psn = assigned 2 numbers;
        gid = wire_gid_to_gid ntohl array';
      })
unfolding scan_draft scan_array read_draft
scan_draft_lem ntohl array msg numbers text array' nul fields word =
    let scanned : scan_array array msg ≡ some array' =
      ap (λ b. if b then word_into array (scan_fields 3 msg).1 else none) nul
      ∙ ap (λ r. word_into array r.1) fields
      ∙ word in
    ap
      (λ o. elim o as (λ _. Option Draft) [
        | none ↦ none
        | some gid' ↦ some (read_draft ntohl gid' msg)
      ])
      scanned
    ∙ ap
        (λ r. some (record {
          lid = assigned 0 r.0;
          qpn = assigned 1 r.0;
          psn = assigned 2 r.0;
          gid = wire_gid_to_gid ntohl array';
        }))
        fields

-- The byte orders of the host and of the network.
pub record ByteOrder (htonl ntohl : ℕ → ℕ) : Type 0 where
  pub fits : (w : ℕ) → htonl w < 2 ^ 32
  pub undoes : (w : ℕ) → w < 2 ^ 32 → ntohl (htonl w) ≡ w

abbrev pub Words : List ℕ → Type 0
Words [] = Unit
Words (w ∷ ws) = (w < 2 ^ 32) × Words ws

-- A 16-bit LID, 24-bit numbers, and a GID of four words.
pub record IsDest (dest : PingpongDest) : Type 0 where
  pub lid_small : dest.lid < 2 ^ 16
  pub qpn_small : dest.qpn < 2 ^ 24
  pub psn_small : dest.psn < 2 ^ 24
  pub four : length dest.gid ≡ 4
  pub words : Words dest.gid

Words-Known :
    (htonl ntohl : ℕ → ℕ) (order : ByteOrder htonl ntohl) (ws : List ℕ)
    → Words ws
    → Known htonl ntohl order.fits ws
Words-Known htonl ntohl order [] h = tt
Words-Known htonl ntohl order (w ∷ ws) h =
    (order.undoes w h.0, Words-Known htonl ntohl order ws h.1)

module _ (htonl ntohl : ℕ → ℕ) (order : ByteOrder htonl ntohl) (dest : PingpongDest)
    (ok : IsDest dest) where
  length-dest_message : length (dest_message htonl dest) ≡ message_size
  unfolding dest_message
  length-dest_message =
      omega
        (arith, length-append {0}, length-print_hex, length-gid_to_wire_gid htonl dest.gid, ok.four)

  scan_gid_lem : scan_gid ntohl (gid_to_wire_gid htonl dest.gid) ≡ some dest.gid
  unfolding scan_gid wire_gid_to_gid
  scan_gid_lem =
      let size : length (gid_to_wire_gid htonl dest.gid) ≡ 32 =
        omega (arith, length-gid_to_wire_gid htonl dest.gid, ok.four) in
      let known =
        read_words-gid_to_wire_gid htonl ntohl order.fits dest.gid [] none
          (Words-Known htonl ntohl order dest.gid ok.words) in
      ap (λ n. if n == 32 then read_words ntohl 4 none (gid_to_wire_gid htonl dest.gid) else none)
        size
      ∙ ap (λ k. read_words ntohl k none (gid_to_wire_gid htonl dest.gid)) (sym ok.four)
      ∙ ap (read_words ntohl (length dest.gid) none)
          (sym (append-nil (gid_to_wire_gid htonl dest.gid)))
      ∙ known

  has_nul-dest_message : has_nul (dest_message htonl dest) ≡ true
  unfolding dest_message
  has_nul-dest_message =
      let gid : List ℕ = gid_to_wire_gid htonl dest.gid ++ 0 ∷ [] in
      let after_psn : List ℕ = print_hex 6 dest.psn ++ (colon ∷ gid) in
      let after_qpn : List ℕ = print_hex 6 dest.qpn ++ (colon ∷ after_psn) in
      has_nul-append (print_hex 4 dest.lid) (colon ∷ after_qpn) (
        has_nul-append (print_hex 6 dest.qpn) (colon ∷ after_psn) (
          has_nul-append (print_hex 6 dest.psn) (colon ∷ gid)
            (has_nul-append (gid_to_wire_gid htonl dest.gid) (0 ∷ []) refl)))

  -- The message of a program fills the array, its NUL included, and the other program reads the same numbers
  -- and the same GID from it.
  pub scan_dest-dest_message :
      (length (dest_message htonl dest) ≡ message_size)
      × (scan_dest ntohl (dest_message htonl dest) ≡ some dest)
  unfolding scan_dest dest_message
  scan_dest-dest_message =
      let gid : List ℕ = gid_to_wire_gid htonl dest.gid ++ 0 ∷ [] in
      let after_psn : List ℕ = print_hex 6 dest.psn ++ (colon ∷ gid) in
      let after_qpn : List ℕ = print_hex 6 dest.qpn ++ (colon ∷ after_psn) in
      (
        length-dest_message,
        rw (has_nul-dest_message) (
            rw
              (scan_field-print_hex 3 dest.lid after_qpn (omega (arith, ok.lid_small))
                (omega (arith, ok.lid_small)))
              (rw
                (scan_field-print_hex 5 dest.qpn after_psn (omega (arith, ok.qpn_small))
                  (omega (arith, ok.qpn_small)))
                (rw
                  (scan_field-print_hex 5 dest.psn gid (omega (arith, ok.psn_small))
                    (omega (arith, ok.psn_small)))
                  (rw
                    (
                      skip-gid_to_wire_gid htonl dest.gid,
                      scan_word-gid_to_wire_gid htonl dest.gid,
                      scan_gid_lem,
                    )
                    refl)))),
      )

  -- The whole `sscanf` of such a message.
  scan_fields-dest_message :
      scan_fields 3 (dest_message htonl dest)
      ≡ (dest.lid ∷ dest.qpn ∷ dest.psn ∷ [], some (gid_to_wire_gid htonl dest.gid ++ 0 ∷ []))
  unfolding dest_message scan_fields
  scan_fields-dest_message =
      let gid : List ℕ = gid_to_wire_gid htonl dest.gid ++ 0 ∷ [] in
      let after_psn : List ℕ = print_hex 6 dest.psn ++ (colon ∷ gid) in
      let after_qpn : List ℕ = print_hex 6 dest.qpn ++ (colon ∷ after_psn) in
      let lids = ok.lid_small in
      let qpns = ok.qpn_small in
      let psns = ok.psn_small in
      scan_fields-print_hex 2 3 dest.lid after_qpn (omega arith) (omega arith)
      ∙ ap (λ r. (dest.lid ∷ r.0, r.1))
          (scan_fields-print_hex 1 5 dest.qpn after_psn (omega arith) (omega arith)
            ∙ ap (λ r. (dest.qpn ∷ r.0, r.1))
                (scan_fields-print_hex 0 5 dest.psn gid (omega arith) (omega arith)))

  -- Whatever the array `gid` holds before, the client has the whole address from such a message.
  pub scan_draft-dest_message :
      (array : List ℕ) → scan_draft ntohl array (dest_message htonl dest) ≡ some (whole dest)
  unfolding wire_gid_to_gid
  scan_draft-dest_message array =
      let text : List ℕ = gid_to_wire_gid htonl dest.gid in
      let size : length text ≡ 32 = omega (arith, length-gid_to_wire_gid htonl dest.gid, ok.four) in
      let tail : List ℕ = 0 ∷ drop (suc (length text)) array in
      let word : overwrite array (scan_word (skip_blanks (text ++ 0 ∷ []))) ≡ some (text ++ tail) =
        ap (overwrite array) (
          ap scan_word (skip-gid_to_wire_gid htonl dest.gid)
          ∙ scan_word-gid_to_wire_gid htonl dest.gid)
        ∙ overwrite_lem array text size in
      let known : read_words ntohl 4 none (text ++ tail) ≡ some dest.gid =
        ap (λ k. read_words ntohl k none (text ++ tail)) (sym ok.four)
        ∙ read_words-gid_to_wire_gid htonl ntohl order.fits dest.gid tail none
            (Words-Known htonl ntohl order dest.gid ok.words) in
      scan_draft_lem ntohl array (dest_message htonl dest) (dest.lid ∷ dest.qpn ∷ dest.psn ∷ [])
        (text ++ 0 ∷ []) (text ++ tail) has_nul-dest_message scan_fields-dest_message word
      ∙ ap (λ g. some (record (whole dest) { gid = g })) known
