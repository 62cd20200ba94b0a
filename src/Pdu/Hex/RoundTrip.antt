-- ===== src/Pdu/Hex/RoundTrip.antt =====
-- Reading the hexadecimal text of a PDU gives its bytes.
use esp32c3_sms_gateway.Prelude.{
  ℕ, zero, suc, ◌/◌, ◌%◌, ◌≤◌, ◌<◌, ◌≡◌, refl, ◌⊎◌, arith, none, some, List, [], ◌∷◌, ◌++◌, length,
  All,
}
use esp32c3_sms_gateway.Prelude.Bits.{shl-bit_or}
use esp32c3_sms_gateway.Prelude.HexText.{hex_digit, hex_text, IsByte}
use esp32c3_sms_gateway.Pdu.Hex.{
  hex_char_to_int, hex_byte, hex_pairs, skip_blanks, hex_string_to_bytes,
}

pub hex_char_to_int-hex_digit : (n : ℕ) → n < 16 → hex_char_to_int (hex_digit n) ≡ some n
unfolding hex_char_to_int hex_digit
hex_char_to_int-hex_digit n h = ground arith

hex_byte_halves : (b : ℕ) → b < 256 → hex_byte (b / 16) (b % 16) ≡ b
unfolding hex_byte
hex_byte_halves b h = omega (arith, shl-bit_or 4 (b / 16) (b % 16) (omega arith))

-- The conversion stops in front of such a text: its first pair is not two digits.
abbrev pub EndsHex : List ℕ → Type 0
EndsHex [] = Unit
EndsHex (x ∷ []) = Unit
EndsHex (x ∷ y ∷ s) = (hex_char_to_int x ≡ none) ⊎ (hex_char_to_int y ≡ none)

hex_pairs_end : (left : ℕ) (s : List ℕ) → EndsHex s → hex_pairs left s ≡ []
unfolding hex_pairs
hex_pairs_end zero s h = refl
hex_pairs_end (suc left) [] h = refl
hex_pairs_end (suc left) (x ∷ []) h = refl
hex_pairs_end (suc left) (x ∷ y ∷ s) h = ground arith

hex_pairs-hex_text :
    (left : ℕ) (bs s : List ℕ)
    → length bs ≤ left
    → All IsByte bs
    → EndsHex s
    → hex_pairs left (hex_text bs ++ s) ≡ bs
unfolding hex_text hex_pairs
hex_pairs-hex_text left [] s h k e = hex_pairs_end left s e
hex_pairs-hex_text zero (b ∷ bs) s h k e = absurd (omega arith)
hex_pairs-hex_text (suc left) (b ∷ bs) s h k e =
    unfold hex_pairs in
    ground (
      arith,
      hex_char_to_int-hex_digit (b / 16),
      hex_char_to_int-hex_digit (b % 16),
      hex_byte_halves b,
      hex_pairs-hex_text left bs s,
    )

abbrev pub IsBlank : ℕ → Type 0
IsBlank c = (c ≡ b' ') ⊎ ((c ≡ 13) ⊎ (c ≡ 10))

skip_blanks-append :
    (blanks s : List ℕ) → All IsBlank blanks → skip_blanks (blanks ++ s) ≡ skip_blanks s
unfolding skip_blanks
skip_blanks-append [] s h = refl
skip_blanks-append (c ∷ cs) s h = ground (arith, skip_blanks-append cs s)

skip_blanks-hex_text :
    (b : ℕ) (bs s : List ℕ) → skip_blanks (hex_text (b ∷ bs) ++ s) ≡ hex_text (b ∷ bs) ++ s
unfolding skip_blanks hex_text
skip_blanks-hex_text b bs s = ground arith

-- The hexadecimal text of 1 to `max_len` bytes is read back as those bytes, whatever blanks stand
-- in front of it, and whatever text follows whose first pair is not two hexadecimal digits.
pub hex_string_to_bytes-hex_text :
    (max_len : ℕ) (blanks : List ℕ) (b : ℕ) (bs s : List ℕ)
    → length (b ∷ bs) ≤ max_len
    → All IsByte (b ∷ bs)
    → All IsBlank blanks
    → EndsHex s
    → hex_string_to_bytes (blanks ++ (hex_text (b ∷ bs) ++ s)) max_len ≡ b ∷ bs
unfolding hex_string_to_bytes
hex_string_to_bytes-hex_text max_len blanks b bs s h k bl e =
    rw (skip_blanks-append blanks _ bl, skip_blanks-hex_text b bs s)
      (hex_pairs-hex_text max_len (b ∷ bs) s h k e)
