-- ===== src/Pdu/Text.antt =====
-- The text decoders of pdu_decoder.c. A payload is an index into the PDU buffer, and the result
-- is what is written to `text` in front of the terminator.
pub mod Septets
pub mod Utf8
use esp32c3_sms_gateway.Prelude.{
  ℕ, zero, suc, ◌+◌, ◌-◌, ◌/◌, bit_and, bit_or, List, [], ◌∷◌, ◌++◌, ltb, leb, if◌then◌else◌,
}
use esp32c3_sms_gateway.Prelude.Bits.{◌<<<◌, ◌>>>◌, u8}
use esp32c3_sms_gateway.Prelude.Result.{Result, ok, read, ◌>>=◌}

-- The UTF-8 bytes of one 16-bit unit.
unfoldable pub utf8_unit : ℕ → List ℕ
utf8_unit wc =
    if ltb wc 0x80
    then u8 wc ∷ []
    else if ltb wc 0x800
    then u8 (bit_or 0xc0 (wc >>> 6)) ∷ u8 (bit_or 0x80 (bit_and wc 0x3f)) ∷ []
    else u8 (bit_or 0xe0 (wc >>> 12))
      ∷ u8 (bit_or 0x80 (bit_and (wc >>> 6) 0x3f))
      ∷ u8 (bit_or 0x80 (bit_and wc 0x3f))
      ∷ []

-- The loop over `left` units from index `i` on.
unfoldable pub ucs2_loop : List ℕ → ℕ → ℕ → Result (List ℕ)
ucs2_loop buf zero i = ok []
ucs2_loop buf (suc left) i = do
  hi ← read buf i
  lo ← read buf (i + 1)
  rest ← ucs2_loop buf left (i + 2)
  ok (utf8_unit (bit_or (hi <<< 8) lo) ++ rest)

-- An odd `byte_len` still makes a round for its last byte.
unfoldable pub ucs2_to_utf8 : List ℕ → ℕ → ℕ → Result (List ℕ)
ucs2_to_utf8 buf start byte_len = ucs2_loop buf ((byte_len + 1) / 2) start

-- One septet, from a byte and its successor.
unfoldable pub join_septet : ℕ → ℕ → ℕ → ℕ
join_septet bit_offset here next =
    bit_or (bit_and (here >>> bit_offset) 0x7f) (bit_and (next <<< (8 - bit_offset)) 0x7f)

unfoldable pub gsm7_septet : List ℕ → ℕ → ℕ → Result ℕ
gsm7_septet buf byte_offset bit_offset = do
  here ← read buf byte_offset
  if ltb 1 bit_offset
      then (do next ← read buf (byte_offset + 1); ok (join_septet bit_offset here next))
      else ok (bit_and (here >>> bit_offset) 0x7f)

-- The loop over `left` septets; the offsets step as in the source.
unfoldable pub gsm7_loop : List ℕ → ℕ → ℕ → ℕ → Result (List ℕ)
gsm7_loop buf zero byte_offset bit_offset = ok []
gsm7_loop buf (suc left) byte_offset bit_offset = do
  c ← gsm7_septet buf byte_offset bit_offset
  let bits = bit_offset + 7
  let carry = leb 8 bits
  rest ←
      gsm7_loop buf left (if carry then byte_offset + 1 else byte_offset)
        (if carry then bits - 8 else bits)
  ok (c ∷ rest)

unfoldable pub gsm7bit_decode : List ℕ → ℕ → ℕ → Result (List ℕ)
gsm7bit_decode buf start septet_count = gsm7_loop buf septet_count start 0
