-- ===== src/Pdu/Decode/FieldBounds.antt =====
-- The field decoders of pdu_decoder.c end, and what they write is bounded.
use esp32c3_sms_gateway.Prelude.{
  ℕ, zero, suc, ◌+◌, ◌*◌, ◌/◌, ◌≤◌, ◌≡◌, refl, arith, List, [], ◌∷◌, bit_or, length, length-append,
  if◌then◌else◌, ltb, ◌==◌,
}
use esp32c3_sms_gateway.Prelude.Bits.{◌<<<◌}
use esp32c3_sms_gateway.Prelude.Result.{Ensures, Ensures-bind, Ensures-read_any, Ensures-if}
use esp32c3_sms_gateway.Pdu.Address.{put_char, put_semi_octets, number_loop, parse_phone_number}
use esp32c3_sms_gateway.Pdu.Timestamp.{two_chars, format_timestamp, parse_timestamp}
use esp32c3_sms_gateway.Pdu.Text.{utf8_unit, ucs2_loop, gsm7_septet, gsm7_loop}
use esp32c3_sms_gateway.Pdu.Text.Utf8.{length-utf8_unit}
use esp32c3_sms_gateway.Pdu.Decode.{copy_bytes}

put_char-le : (out : List ℕ) (c : ℕ) → length out ≤ 19 → length (put_char out c) ≤ 19
unfolding put_char
put_char-le out c h = ground (arith, length-append out (c ∷ []))

put_semi_octets-le : (out : List ℕ) (b : ℕ) → length out ≤ 19 → length (put_semi_octets out b) ≤ 19
unfolding put_semi_octets
put_semi_octets-le out b h = grind (arith, put_char-le)

abbrev pub FitsSender : List ℕ → Type 0
FitsSender out = length out ≤ 19

pub number_loop-Ensures :
    (buf : List ℕ) (left idx : ℕ) (out : List ℕ)
    → length out ≤ 19
    → Ensures FitsSender (number_loop buf left idx out)
unfolding number_loop
number_loop-Ensures buf zero idx out h = h
number_loop-Ensures buf (suc left) idx out h = Ensures-read_any FitsSender buf idx _ (λ b.
    number_loop-Ensures buf left (idx + 1) (put_semi_octets out b) (put_semi_octets-le out b h))

abbrev pub SenderFits : List ℕ × ℕ → Type 0
SenderFits r = length r.0 ≤ 19

pub parse_phone_number-Ensures :
    (buf : List ℕ) (start : ℕ) → Ensures SenderFits (parse_phone_number buf start)
unfolding parse_phone_number
parse_phone_number-Ensures buf start = Ensures-read_any SenderFits buf start _ λ num_len.
    Ensures-if SenderFits (num_len == 0) _ _ (λ _. omega arith)
      λ _. Ensures-read_any SenderFits buf (start + 1) _ λ toa.
        Ensures-bind FitsSender SenderFits (number_loop buf ((num_len + 1) / 2) (start + 2) _) _
          (number_loop-Ensures buf ((num_len + 1) / 2) (start + 2) _ (prefix_fits toa)) λ out h. h
  where
    prefix_fits : (toa : ℕ) → length {A = ℕ} (if toa == 0x91 then b'+' ∷ [] else []) ≤ 19
    prefix_fits toa = ground arith

abbrev pub StampFits : List ℕ × ℕ → Type 0
StampFits r = length r.0 ≤ 31

pub parse_timestamp-Ensures :
    (buf : List ℕ) (start : ℕ) → Ensures StampFits (parse_timestamp buf start)
unfolding parse_timestamp format_timestamp two_chars
parse_timestamp-Ensures buf start = Ensures-read_any StampFits buf start _ λ year.
    Ensures-read_any StampFits buf (start + 1) _ λ month.
      Ensures-read_any StampFits buf (start + 2) _ λ day.
        Ensures-read_any StampFits buf (start + 3) _ λ hour.
          Ensures-read_any StampFits buf (start + 4) _ λ minute.
            Ensures-read_any StampFits buf (start + 5) _
              λ second. Ensures-read_any StampFits buf (start + 6) _ λ zone. omega arith

pub ucs2_loop-Ensures :
    (buf : List ℕ) (left i : ℕ) → Ensures (λ t. length t ≤ 3 * left) (ucs2_loop buf left i)
unfolding ucs2_loop
ucs2_loop-Ensures buf zero i = omega arith
ucs2_loop-Ensures buf (suc left) i = Ensures-read_any _ buf i _ λ hi.
    Ensures-read_any _ buf (i + 1) _ λ lo.
      Ensures-bind (λ t. length t ≤ 3 * left) _ (ucs2_loop buf left (i + 2)) _
        (ucs2_loop-Ensures buf left (i + 2))
        λ rest h. omega (
          arith,
          length-append (utf8_unit (bit_or (hi <<< 8) lo)) rest,
          length-utf8_unit (bit_or (hi <<< 8) lo),
        )

gsm7_septet-Ensures : (buf : List ℕ) (at bit : ℕ) → Ensures (λ c. Unit {0}) (gsm7_septet buf at bit)
unfolding gsm7_septet
gsm7_septet-Ensures buf at bit = Ensures-read_any _ buf at _ λ here.
    Ensures-if _ (ltb 1 bit) _ _ (λ _. Ensures-read_any _ buf (at + 1) _ λ next. tt) (λ _. tt)

pub gsm7_loop-Ensures :
    (buf : List ℕ) (left at bit : ℕ) → Ensures (λ t. length t ≡ left) (gsm7_loop buf left at bit)
unfolding gsm7_loop
gsm7_loop-Ensures buf zero at bit = refl
gsm7_loop-Ensures buf (suc left) at bit =
    Ensures-bind (λ c. Unit {0}) _ (gsm7_septet buf at bit) _ (gsm7_septet-Ensures buf at bit)
      λ c _.
        Ensures-bind (λ t. length t ≡ left) _ (gsm7_loop buf left _ _) _
          (gsm7_loop-Ensures buf left _ _) λ rest h. omega arith

pub copy_bytes-Ensures :
    (buf : List ℕ) (left i : ℕ) → Ensures (λ t. length t ≡ left) (copy_bytes buf left i)
unfolding copy_bytes
copy_bytes-Ensures buf zero i = refl
copy_bytes-Ensures buf (suc left) i = Ensures-read_any _ buf i _ λ b.
    Ensures-bind (λ t. length t ≡ left) _ (copy_bytes buf left (i + 1)) _
      (copy_bytes-Ensures buf left (i + 1)) λ rest h. omega arith
