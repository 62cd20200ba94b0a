-- ===== src/Pdu/Hex.antt =====
-- `hex_char_to_int` and `hex_string_to_bytes` of pdu_decoder.c.
pub mod RoundTrip
use esp32c3_sms_gateway.Prelude.{
  ℕ, zero, suc, ◌+◌, ◌-◌, bit_or, ◌&&◌, ◌||◌, Option, none, some, List, [], ◌∷◌, leb, ◌==◌,
  if◌then◌else◌,
}
use esp32c3_sms_gateway.Prelude.Bits.{◌<<<◌, u8}

-- `none` is the -1 of the source.
unfoldable pub hex_char_to_int : ℕ → Option ℕ
hex_char_to_int c =
    if leb b'0' c && leb c b'9'
    then some (c - b'0')
    else if leb b'a' c && leb c b'f'
    then some (c - b'a' + 10)
    else if leb b'A' c && leb c b'F'
    then some (c - b'A' + 10)
    else none

-- The leading white space that the source skips.
unfoldable pub skip_blanks : List ℕ → List ℕ
skip_blanks [] = []
skip_blanks (c ∷ s) = if c == b' ' || c == 13 || c == 10 then skip_blanks s else c ∷ s

-- `(uint8_t)((h << 4) | l)`
unfoldable pub hex_byte : ℕ → ℕ → ℕ
hex_byte h l = u8 (bit_or (h <<< 4) l)

-- The loop with `left` places of `out_bytes` free; it ends at the first pair that is not two
-- hexadecimal digits and keeps the bytes before it.
unfoldable pub hex_pairs : ℕ → List ℕ → List ℕ
hex_pairs zero s = []
hex_pairs (suc left) [] = []
hex_pairs (suc left) (a ∷ []) = []
hex_pairs (suc left) (a ∷ b ∷ s) = elim (hex_char_to_int a) [
  | none ↦ []
  | some h ↦ elim (hex_char_to_int b) [ none ↦ [] | some l ↦ hex_byte h l ∷ hex_pairs left s ]
]

unfoldable pub hex_string_to_bytes : List ℕ → ℕ → List ℕ
hex_string_to_bytes hex_str max_len = hex_pairs max_len (skip_blanks hex_str)
