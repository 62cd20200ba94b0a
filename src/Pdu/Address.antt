-- ===== src/Pdu/Address.antt =====
-- `parse_phone_number` of pdu_decoder.c: semi-octets into the 20 bytes of `sender`.
pub mod RoundTrip
use esp32c3_sms_gateway.Prelude.{
  ℕ, zero, suc, ◌+◌, ◌/◌, bit_and, List, [], ◌∷◌, ◌++◌, ltb, ◌==◌, if◌then◌else◌, length,
}
use esp32c3_sms_gateway.Prelude.Bits.{◌>>>◌}
use esp32c3_sms_gateway.Prelude.Result.{Result, ok, read, ◌>>=◌}
use esp32c3_sms_gateway.Prelude.Text.{ascii}

abbrev pub low_nibble : ℕ → ℕ
low_nibble b = bit_and b 0x0f

abbrev pub high_nibble : ℕ → ℕ
high_nibble b = bit_and b 0xf0 >>> 4

-- `if (current_out_idx < 19) out_num[current_out_idx++] = c;`
unfoldable pub put_char : List ℕ → ℕ → List ℕ
put_char out c = if ltb (length out) 19 then out ++ (c ∷ []) else out

-- One byte of the number: a high half of 0xF is filler and is dropped.
unfoldable pub put_semi_octets : List ℕ → ℕ → List ℕ
put_semi_octets out b =
    let out' = put_char out (b'0' + low_nibble b) in
    if high_nibble b == 0x0f then out' else put_char out' (b'0' + high_nibble b)

unfoldable pub number_loop : List ℕ → ℕ → ℕ → List ℕ → Result (List ℕ)
number_loop buf zero idx out = ok out
number_loop buf (suc left) idx out = do
  b ← read buf idx
  number_loop buf left (idx + 1) (put_semi_octets out b)

-- The text of the number and the index behind it.
unfoldable pub parse_phone_number : List ℕ → ℕ → Result (List ℕ × ℕ)
parse_phone_number buf start_idx = do
  num_len ← read buf start_idx
  if num_len == 0 then ok (ascii "Unknown", start_idx + 2) else do
    type_of_address ← read buf (start_idx + 1)
    let byte_len = (num_len + 1) / 2
    let prefix = if type_of_address == 0x91 then b'+' ∷ [] else []
    out ← number_loop buf byte_len (start_idx + 2) prefix
    ok (out, start_idx + 2 + byte_len)
