-- ===== src/Pdu/Decode.antt =====
-- `pdu_decode` of pdu_decoder.c, step by step. The local `buf[256]` is the list of its 256 bytes:
-- those converted from the text, and behind them whatever the stack held (`stale`).
pub mod Deliver
pub mod Conversion
pub mod SevenBit
pub mod Fragment
pub mod FieldBounds
pub mod Bounds
pub mod Overread
use esp32c3_sms_gateway.Prelude.{
  ℕ, zero, suc, ◌+◌, ◌-◌, ◌*◌, ◌/◌, bit_and, bit_or, Bool, true, false, not, ◌&&◌, ◌||◌, Option,
  none, some, List, [], ◌∷◌, ◌++◌, ltb, leb, ◌==◌, if◌then◌else◌, length, drop,
}
use esp32c3_sms_gateway.Prelude.Bits.{◌<<<◌}
use esp32c3_sms_gateway.Prelude.Result.{
  Result, ok, err, stuck, fail, invalid_arg, fail_if, read, ◌>>=◌, ◌>>◌,
}
use esp32c3_sms_gateway.Pdu.Hex.{hex_string_to_bytes}
use esp32c3_sms_gateway.Pdu.Address.{parse_phone_number}
use esp32c3_sms_gateway.Pdu.Timestamp.{parse_timestamp}
use esp32c3_sms_gateway.Pdu.Text.{ucs2_to_utf8, gsm7bit_decode}

-- `is_concat`, `ref_number`, `total_parts` and `part_number`.
pub record ConcatInfo : Type 0 where
  pub is_concat : Bool
  pub ref_number : ℕ
  pub total_parts : ℕ
  pub part_number : ℕ

-- `decoded_sms_t`
pub record DecodedSms : Type 0 where
  pub sender : List ℕ
  pub timestamp : List ℕ
  pub text : List ℕ
  pub concat : ConcatInfo

-- What `memset` leaves.
abbrev pub no_concat : ConcatInfo
no_concat = record { is_concat = false; ref_number = 0; total_parts = 0; part_number = 0 }

pub data Encoding : Type 0 where
  ucs2 eight_bit seven_bit : Encoding

unfoldable pub encoding_type : ℕ → Encoding
encoding_type dcs =
    if bit_and dcs 0x0c == 0x08 || dcs == 0x08
    then ucs2
    else if bit_and dcs 0x0c == 0x04
    then eight_bit
    else seven_bit

-- An element `00 03 ref total part`, with its payload index `i`.
unfoldable pub short_reference : List ℕ → ℕ → ℕ → Result ConcatInfo
short_reference buf base i = do
  ref ← read buf (base + (i + 2))
  total ← read buf (base + (i + 3))
  part ← read buf (base + (i + 4))
  ok (record { is_concat = true; ref_number = ref; total_parts = total; part_number = part })

-- An element `08 04 ref ref total part`.
unfoldable pub long_reference : List ℕ → ℕ → ℕ → Result ConcatInfo
long_reference buf base i = do
  hi ← read buf (base + (i + 2))
  lo ← read buf (base + (i + 3))
  total ← read buf (base + (i + 4))
  part ← read buf (base + (i + 5))
  ok (record {
    is_concat = true;
    ref_number = bit_or (hi <<< 8) lo;
    total_parts = total;
    part_number = part;
  })

-- The loop over the elements of the user data header, from payload index `i` on.
unfoldable pub udh_loop : List ℕ → ℕ → ℕ → ℕ → ℕ → ℕ → Result ConcatInfo
udh_loop buf base payload_len udh_len zero i = stuck
udh_loop buf base payload_len udh_len (suc fuel) i = elim (leb i udh_len && ltb i payload_len) [
  | false ↦ ok no_concat
  | true ↦ read buf (base + i) >>= λ iei. read buf (base + (i + 1)) >>= λ iel.
      elim (iei == 0x00 && iel == 3) [
        | true ↦ short_reference buf base i
        | false ↦ elim (iei == 0x08 && iel == 4) [
          | true ↦ long_reference buf base i
          | false ↦ udh_loop buf base payload_len udh_len fuel (i + (2 + iel))
        ]
      ]
]

-- The concatenation fields and `content_start`. Every round moves `i` on by 2 at least.
unfoldable pub parse_udh : List ℕ → ℕ → ℕ → Bool → Result (ConcatInfo × ℕ)
parse_udh buf base payload_len false = ok (no_concat, 0)
parse_udh buf base payload_len true = do
  udh_len ← read buf base
  info ← udh_loop buf base payload_len udh_len (payload_len + 1) 1
  ok (info, udh_len + 1)

-- `memcpy`
unfoldable pub copy_bytes : List ℕ → ℕ → ℕ → Result (List ℕ)
copy_bytes buf zero i = ok []
copy_bytes buf (suc left) i = do b ← read buf i; rest ← copy_bytes buf left (i + 1); ok (b ∷ rest)

abbrev pub text_size : ℕ
text_size = 480

-- `int len = payload_byte_len - content_start`, then `len >= sizeof(out_sms->text)`: the
-- comparison is unsigned, so a negative `len` is cut to 479 too.
unfoldable pub eight_bit_len : ℕ → ℕ → ℕ
eight_bit_len payload_len content_start =
    if ltb payload_len content_start || leb text_size (payload_len - content_start)
    then text_size - 1
    else payload_len - content_start

-- A negative septet count makes no round, as the 0 of the truncated difference.
unfoldable pub septets_left : ℕ → Bool → ℕ → ℕ
septets_left user_data_len has_udh udh_bytes =
    if has_udh then user_data_len - (udh_bytes * 8 + 6) / 7 else user_data_len

unfoldable pub decode_text : List ℕ → ℕ → ℕ → ℕ → Encoding → Bool → ℕ → Result (List ℕ)
decode_text buf base payload_len content_start ucs2 has_udh user_data_len =
    if ltb content_start payload_len
    then ucs2_to_utf8 buf (base + content_start) (payload_len - content_start)
    else ok []
decode_text buf base payload_len content_start seven_bit has_udh user_data_len =
    gsm7bit_decode buf (base + content_start) (septets_left user_data_len has_udh content_start)
decode_text buf base payload_len content_start eight_bit has_udh user_data_len =
    copy_bytes buf (eight_bit_len payload_len content_start) (base + content_start)

-- Steps 8 and 9: the user data, behind its length byte.
unfoldable pub decode_user_data :
    List ℕ → ℕ → ℕ → Bool → Encoding → List ℕ → List ℕ → Result DecodedSms
decode_user_data buf buf_len idx has_udh encoding sender timestamp = do
  user_data_len ← read buf idx
  let base = idx + 1
  let payload_len = buf_len - base
  if leb buf_len base
      then ok (record { sender = sender; timestamp = timestamp; text = []; concat = no_concat })
      else (do
        (info, content_start) ← parse_udh buf base payload_len has_udh
        text ← decode_text buf base payload_len content_start encoding has_udh user_data_len
        ok (record { sender = sender; timestamp = timestamp; text = text; concat = info }))

-- Steps 2 to 7, on the buffer.
unfoldable pub decode_buffer : List ℕ → ℕ → Result DecodedSms
decode_buffer buf buf_len = do
  smsc_len ← read buf 0
  let type_at = 1 + smsc_len
  fail_if (leb buf_len type_at) fail
  pdu_type ← read buf type_at
  let has_udh = not (bit_and pdu_type 0x40 == 0)
  (sender, pid_at) ← parse_phone_number buf (type_at + 1)
  fail_if (leb buf_len pid_at) fail
  pid ← read buf pid_at
  dcs ← read buf (pid_at + 1)
  (timestamp, udl_at) ← parse_timestamp buf (pid_at + 2)
  fail_if (leb buf_len udl_at) fail
  decode_user_data buf buf_len udl_at has_udh (encoding_type dcs) sender timestamp

-- `buf` after the conversion.
abbrev pub fill_buffer : List ℕ → List ℕ → List ℕ
fill_buffer stale bytes = bytes ++ drop (length bytes) stale

-- `none` is a null `pdu_hex`. A failed call's partly filled `out_sms` is not kept: no caller
-- reads it.
unfoldable pub pdu_decode : List ℕ → Option (List ℕ) → Result DecodedSms
pdu_decode stale none = err invalid_arg
pdu_decode stale (some pdu_hex) =
    let bytes = hex_string_to_bytes pdu_hex 256 in
    if length bytes == 0 then err fail else decode_buffer (fill_buffer stale bytes) (length bytes)
