-- ===== src/Esim/Apdu/Reading.antt =====
-- What is read of a line with an answer of the card, whatever stands around its hexadecimal text.
use esp32c3_sms_gateway.Prelude.{
  ℕ, ◌/◌, ◌%◌, ◌<◌, ◌≡◌, ◌≢◌, refl, ap, arith, bit_or, true, false, List, [], ◌∷◌, ◌++◌, length,
  All, ◌==◌,
}
use esp32c3_sms_gateway.Prelude.Bits.{u8, ◌<<<◌, shl-bit_or}
use esp32c3_sms_gateway.Prelude.Result.{ok}
use esp32c3_sms_gateway.Prelude.HexText.{IsByte, hex_digit, hex_text, length-hex_text}
use esp32c3_sms_gateway.Prelude.Text.{ascii, starts, find_str, find_char_first}
use esp32c3_sms_gateway.Esim.Profile.{is_hex_char, hex_nibble, hex_to_bytes}
use esp32c3_sms_gateway.Esim.Apdu.{hex_chars, hex_start, answer_bytes}

hex_nibble-hex_digit : (n : ℕ) → n < 16 → hex_nibble (hex_digit n) ≡ n
unfolding hex_nibble hex_digit
hex_nibble-hex_digit n h = ground arith

is_hex_char-hex_digit : (n : ℕ) → n < 16 → is_hex_char (hex_digit n) ≡ true
unfolding hex_digit
is_hex_char-hex_digit n h = ground arith

joined_nibbles : (b : ℕ) → b < 256 → u8 (bit_or ((b / 16) <<< 4) (b % 16)) ≡ b
joined_nibbles b h = omega (arith, shl-bit_or 4 (b / 16) (b % 16) (omega arith))

hex_to_bytes-hex_text : (bs : List ℕ) → All IsByte bs → hex_to_bytes (hex_text bs) (length bs) ≡ bs
unfolding hex_to_bytes hex_text
hex_to_bytes-hex_text [] h = refl
hex_to_bytes-hex_text (b ∷ bs) (small, h) =
    rw
      (
        hex_nibble-hex_digit (b / 16) (omega (arith, small)),
        hex_nibble-hex_digit (b % 16) (omega arith),
        joined_nibbles b small,
        hex_to_bytes-hex_text bs h,
      )
      refl

-- Text without a hexadecimal digit.
abbrev pub NoHex : List ℕ → Type 0
NoHex = All (λ c. is_hex_char c ≡ false)

hex_chars-none : (s : List ℕ) → NoHex s → hex_chars s ≡ []
unfolding hex_chars
hex_chars-none [] h = refl
hex_chars-none (c ∷ s) (other, h) = rw other (hex_chars-none s h)

hex_chars-hex_text :
    (bs s : List ℕ) → All IsByte bs → NoHex s → hex_chars (hex_text bs ++ s) ≡ hex_text bs
unfolding hex_chars hex_text
hex_chars-hex_text [] s h k = hex_chars-none s k
hex_chars-hex_text (b ∷ bs) s (small, h) k =
    rw
      (
        is_hex_char-hex_digit (b / 16) (omega (arith, small)),
        is_hex_char-hex_digit (b % 16) (omega arith),
        hex_chars-hex_text bs s h k,
      )
      refl

-- A line with the bytes: a number in front of a comma, and other text behind them.
abbrev pub card_line : List ℕ → List ℕ → List ℕ → List ℕ
card_line number bytes ends = ascii "+CGLA:" ++ (number ++ b',' ∷ b'"' ∷ (hex_text bytes ++ ends))

hex_start-card_line :
    (number bytes ends : List ℕ)
    → All (λ c. c ≢ b',') number
    → hex_start (card_line number bytes ends) ≡ b'"' ∷ (hex_text bytes ++ ends)
unfolding hex_start find_str starts
hex_start-card_line number bytes ends h =
    rw (find_char_first b',' number (b'"' ∷ (hex_text bytes ++ ends)) h, hex_start) refl

pub answer_bytes-card_line :
    (number bytes ends : List ℕ)
    → All (λ c. c ≢ b',') number
    → All IsByte bytes
    → NoHex ends
    → 0 < length bytes
    → answer_bytes (card_line number bytes ends) ≡ ok bytes
unfolding answer_bytes
answer_bytes-card_line number bytes ends h k no_hex some_bytes =
    let clean : hex_chars (b'"' ∷ (hex_text bytes ++ ends)) ≡ hex_text bytes =
      hex_chars-hex_text bytes ends k no_hex in
    let long = length-hex_text bytes in
    let some_text : (length (hex_text bytes) == 0) ≡ false = ground (arith, long, some_bytes) in
    let even : (length (hex_text bytes) % 2 == 0) ≡ true = ground (arith, long) in
    let half : length (hex_text bytes) / 2 ≡ length bytes = omega (arith, long) in
    rw (hex_start-card_line number bytes ends h, clean, some_text, even, half)
      (ap ok (hex_to_bytes-hex_text bytes k))
