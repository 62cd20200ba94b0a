-- ===== src/Pdu/Decode/Bounds.antt =====
-- What `pdu_decode` writes fits its arrays, and its loops end, on every input.
use esp32c3_sms_gateway.Prelude.{
  ℕ, zero, suc, ◌+◌, ◌-◌, ◌*◌, ◌/◌, ◌≤◌, ◌<◌, ◌≡◌, arith, Bool, true, false, ◌&&◌, Option, none,
  some, List, [], ◌∷◌, length, drop, All, All-append, ltb, leb, ◌==◌,
}
use esp32c3_sms_gateway.Prelude.HexText.{IsByte}
use esp32c3_sms_gateway.Prelude.Result.{
  err, fail, Ensures, Ensures-bind, Ensures-read, Ensures-read_any, Ensures-if, Ensures-elim,
  Ensures-weaken, Ensures-fail_if,
}
use esp32c3_sms_gateway.Pdu.Hex.{hex_byte, hex_pairs, hex_string_to_bytes, skip_blanks}
use esp32c3_sms_gateway.Pdu.Address.{parse_phone_number}
use esp32c3_sms_gateway.Pdu.Timestamp.{parse_timestamp}
use esp32c3_sms_gateway.Pdu.Text.{ucs2_loop, ucs2_to_utf8, gsm7_loop, gsm7bit_decode}
use esp32c3_sms_gateway.Pdu.Decode.{
  DecodedSms, Encoding, ucs2, eight_bit, seven_bit, encoding_type, short_reference, long_reference,
  udh_loop, parse_udh, copy_bytes, eight_bit_len, septets_left, decode_text, decode_user_data,
  decode_buffer, fill_buffer, pdu_decode,
}
use esp32c3_sms_gateway.Pdu.Decode.FieldBounds.{
  SenderFits, StampFits, parse_phone_number-Ensures, parse_timestamp-Ensures, ucs2_loop-Ensures,
  gsm7_loop-Ensures, copy_bytes-Ensures,
}

short_reference-Ensures :
    (buf : List ℕ) (base i : ℕ) → Ensures (λ c. Unit {0}) (short_reference buf base i)
unfolding short_reference
short_reference-Ensures buf base i = Ensures-read_any _ buf (base + (i + 2)) _ λ ref.
    Ensures-read_any _ buf (base + (i + 3)) _
      λ total. Ensures-read_any _ buf (base + (i + 4)) _ λ part. tt

long_reference-Ensures :
    (buf : List ℕ) (base i : ℕ) → Ensures (λ c. Unit {0}) (long_reference buf base i)
unfolding long_reference
long_reference-Ensures buf base i = Ensures-read_any _ buf (base + (i + 2)) _ λ hi.
    Ensures-read_any _ buf (base + (i + 3)) _ λ lo.
      Ensures-read_any _ buf (base + (i + 4)) _
        λ total. Ensures-read_any _ buf (base + (i + 5)) _ λ part. tt

-- The loop ends on every header: the index moves on by 2 at least.
udh_loop-Ensures :
    (buf : List ℕ) (base len udh_len fuel i : ℕ)
    → 0 < fuel
    → len < fuel + i
    → Ensures (λ c. Unit {0}) (udh_loop buf base len udh_len fuel i)
unfolding udh_loop
udh_loop-Ensures buf base len udh_len zero i pos h = absurd (omega arith)
udh_loop-Ensures buf base len udh_len (suc fuel) i pos h =
    Ensures-elim _ (leb i udh_len && ltb i len) _ _
      (λ more.
        let below : i < len = ground arith in
        Ensures-read_any _ buf (base + i) _ λ iei. Ensures-read_any _ buf (base + (i + 1)) _ λ iel.
          Ensures-elim _ (iei == 0x00 && iel == 3) _ _ (λ _. short_reference-Ensures buf base i)
            λ _.
              Ensures-elim _ (iei == 0x08 && iel == 4) _ _ (λ _. long_reference-Ensures buf base i)
                λ _.
                  udh_loop-Ensures buf base len udh_len fuel (i + (2 + iel)) (omega arith)
                    (omega arith))
      (λ _. tt)

parse_udh-Ensures :
    (buf : List ℕ) (base len : ℕ) (with_udh : Bool)
    → Ensures (λ r. Unit {0}) (parse_udh buf base len with_udh)
unfolding parse_udh
parse_udh-Ensures buf base len false = tt
parse_udh-Ensures buf base len true = Ensures-read_any _ buf base _ λ udh_len.
    Ensures-bind (λ c. Unit {0}) _ (udh_loop buf base len udh_len (len + 1) 1) _
      (udh_loop-Ensures buf base len udh_len (len + 1) 1 (omega arith) (omega arith)) λ info h. tt

abbrev TextFits : List ℕ → Type 0
TextFits t = length t ≤ 479

decode_text-Ensures :
    (encoding : Encoding) (buf : List ℕ) (base len start : ℕ) (with_udh : Bool) (udl : ℕ)
    → len ≤ 256
    → udl < 256
    → Ensures TextFits (decode_text buf base len start encoding with_udh udl)
unfolding decode_text ucs2_to_utf8 gsm7bit_decode septets_left eight_bit_len
decode_text-Ensures ucs2 buf base len start with_udh udl h k =
    Ensures-if TextFits (ltb start len) _ _
      (λ _.
        Ensures-weaken (λ t. length t ≤ 3 * ((len - start + 1) / 2)) TextFits
          (ucs2_loop buf ((len - start + 1) / 2) (base + start))
          (ucs2_loop-Ensures buf ((len - start + 1) / 2) (base + start)) λ t p. omega arith)
      (λ _. omega arith)
decode_text-Ensures seven_bit buf base len start with_udh udl h k =
    Ensures-weaken (λ t. length t ≡ septets_left udl with_udh start) TextFits
      (gsm7_loop buf (septets_left udl with_udh start) (base + start) 0)
      (gsm7_loop-Ensures buf (septets_left udl with_udh start) (base + start) 0) λ t p. ground arith
decode_text-Ensures eight_bit buf base len start with_udh udl h k =
    Ensures-weaken (λ t. length t ≡ eight_bit_len len start) TextFits
      (copy_bytes buf (eight_bit_len len start) (base + start))
      (copy_bytes-Ensures buf (eight_bit_len len start) (base + start)) λ t p. ground arith

-- Every array of the result holds its text and a terminator.
pub record FitsArrays (sms : DecodedSms) : Type 0 where
  pub sender_fits : length sms.sender < 20
  pub timestamp_fits : length sms.timestamp < 32
  pub text_fits : length sms.text < 480

decode_user_data-Ensures :
    (buf : List ℕ) (buf_len idx : ℕ) (with_udh : Bool) (encoding : Encoding)
    (sender timestamp : List ℕ)
    → All IsByte buf
    → buf_len ≤ 256
    → length sender ≤ 19
    → length timestamp ≤ 31
    → Ensures FitsArrays (decode_user_data buf buf_len idx with_udh encoding sender timestamp)
unfolding decode_user_data
decode_user_data-Ensures buf buf_len idx with_udh encoding sender timestamp bytes n s t =
    Ensures-read IsByte FitsArrays buf idx _ bytes λ udl small.
      Ensures-if FitsArrays (leb buf_len (idx + 1)) _ _
        (λ _. record {
          sender_fits = omega arith;
          timestamp_fits = omega arith;
          text_fits = omega arith;
        })
        λ _.
          Ensures-bind (λ r. Unit {0}) FitsArrays
            (parse_udh buf (idx + 1) (buf_len - (idx + 1)) with_udh) _
            (parse_udh-Ensures buf (idx + 1) (buf_len - (idx + 1)) with_udh)
            λ r _.
              Ensures-bind TextFits FitsArrays
                (decode_text buf (idx + 1) (buf_len - (idx + 1)) r.1 encoding with_udh udl) _
                (decode_text-Ensures encoding buf (idx + 1) (buf_len - (idx + 1)) r.1 with_udh udl
                  (omega arith) small)
                λ text h. record {
                  sender_fits = omega arith;
                  timestamp_fits = omega arith;
                  text_fits = omega arith;
                }

decode_buffer-Ensures :
    (buf : List ℕ) (buf_len : ℕ)
    → All IsByte buf
    → buf_len ≤ 256
    → Ensures FitsArrays (decode_buffer buf buf_len)
unfolding decode_buffer
decode_buffer-Ensures buf buf_len bytes n = Ensures-read_any FitsArrays buf 0 _ λ smsc_len.
    Ensures-fail_if FitsArrays (leb buf_len (1 + smsc_len)) fail _ λ _.
      Ensures-read_any FitsArrays buf (1 + smsc_len) _ λ pdu_type.
        Ensures-bind SenderFits FitsArrays (parse_phone_number buf (1 + smsc_len + 1)) _
          (parse_phone_number-Ensures buf (1 + smsc_len + 1))
          λ number sender_fits. Ensures-fail_if FitsArrays (leb buf_len number.1) fail _ λ _.
            Ensures-read_any FitsArrays buf number.1 _ λ pid.
              Ensures-read_any FitsArrays buf (number.1 + 1) _ λ dcs.
                Ensures-bind StampFits FitsArrays (parse_timestamp buf (number.1 + 2)) _
                  (parse_timestamp-Ensures buf (number.1 + 2))
                  λ stamp stamp_fits. Ensures-fail_if FitsArrays (leb buf_len stamp.1) fail _ λ _.
                    decode_user_data-Ensures buf buf_len stamp.1 _ (encoding_type dcs) number.0
                      stamp.0 bytes n sender_fits stamp_fits

hex_pairs_fits :
    (left : ℕ) (s : List ℕ) → (length (hex_pairs left s) ≤ left) × All IsByte (hex_pairs left s)
unfolding hex_pairs hex_byte
hex_pairs_fits zero s = (omega arith, tt)
hex_pairs_fits (suc left) [] = (omega arith, tt)
hex_pairs_fits (suc left) (a ∷ []) = (omega arith, tt)
hex_pairs_fits (suc left) (a ∷ b ∷ s) = ground (arith, hex_pairs_fits left s)

All-drop : (n : ℕ) (xs : List ℕ) → All IsByte xs → All IsByte (drop n xs)
All-drop zero xs h = h
All-drop (suc n) [] h = h
All-drop (suc n) (x ∷ xs) h = All-drop n xs h.1

-- On every input and every content of the stack, `pdu_decode` ends, and what it returns fits the
-- arrays of `decoded_sms_t` with a terminator: it never writes outside them.
pub pdu_decode-Ensures :
    (stale : List ℕ) (pdu_hex : Option (List ℕ))
    → All IsByte stale
    → Ensures FitsArrays (pdu_decode stale pdu_hex)
unfolding pdu_decode hex_string_to_bytes
pdu_decode-Ensures stale none h = tt
pdu_decode-Ensures stale (some s) h =
    let bytes = hex_pairs 256 (skip_blanks s) in
    let (short, small) = hex_pairs_fits 256 (skip_blanks s) in
    Ensures-if FitsArrays (length bytes == 0) (err fail)
      (decode_buffer (fill_buffer stale bytes) (length bytes)) (λ _. tt)
      λ _.
        decode_buffer-Ensures (fill_buffer stale bytes) (length bytes)
          (All-append IsByte bytes (drop (length bytes) stale) small
            (All-drop (length bytes) stale h))
          short
