-- ===== src/Pdu/Examples.antt =====
-- Concrete messages through the theorems on the PDU decoder.
use esp32c3_sms_gateway.Prelude.{
  ℕ, ◌≤◌, ◌≡◌, refl, inl, inr, arith, true, some, List, [], ◌∷◌, ◌++◌, length,
}
use esp32c3_sms_gateway.Prelude.HexText.{hex_text}
use esp32c3_sms_gateway.Prelude.Result.{ok, fault, Ensures}
use esp32c3_sms_gateway.Prelude.Text.{ascii}
use esp32c3_sms_gateway.Pdu.Samples.{stale, noon, from_phone, hello, hello_packed}
use esp32c3_sms_gateway.Pdu.Hex.{hex_char_to_int}
use esp32c3_sms_gateway.Pdu.Address.RoundTrip.{semi_octets}
use esp32c3_sms_gateway.Pdu.Timestamp.RoundTrip.{stamp, date_text}
use esp32c3_sms_gateway.Pdu.Text.{ucs2_to_utf8, gsm7bit_decode}
use esp32c3_sms_gateway.Pdu.Text.Septets.{gsm7bit_decode-digits}
use esp32c3_sms_gateway.Pdu.Text.Utf8.{utf8_points, unit_points, be_units, ucs2_to_utf8-scan}
use esp32c3_sms_gateway.Pdu.Decode.{no_concat, eight_bit, encoding_type, decode_text, pdu_decode}
use esp32c3_sms_gateway.Pdu.Decode.Deliver.{header, address_on, sender_text}
use esp32c3_sms_gateway.Pdu.Decode.Conversion.{IsNoise}
use esp32c3_sms_gateway.Pdu.Decode.SevenBit.{pdu_decode-seven_bit}
use esp32c3_sms_gateway.Pdu.Decode.Fragment.{
  short, fragment_bytes, fragment_info, IsUtf8For, pdu_decode-ucs2_fragment,
}
use esp32c3_sms_gateway.Pdu.Decode.Bounds.{FitsArrays, pdu_decode-Ensures}
use esp32c3_sms_gateway.Pdu.Decode.Overread.{decode_text-overread, gsm7bit_decode-overread}

crlf-IsNoise : IsNoise (13 ∷ 10 ∷ []) (13 ∷ 10 ∷ [])
unfolding hex_char_to_int
crlf-IsNoise = record { blanks = (inr (inl refl), (inr (inr refl), tt)); ends = inl refl }

pdu_decode-seven_bit_example :
    pdu_decode stale (
      some (
        (13 ∷ 10 ∷ [])
        ++ (hex_text (header (from_phone 0x04 0x00) (5 ∷ 0xe8 ∷ hello_packed)) ++ (13 ∷ 10 ∷ []))))
    ≡ ok (record {
      sender = sender_text (from_phone 0x04 0x00);
      timestamp = date_text noon;
      text = hello;
      concat = no_concat;
    })
unfolding header address_on semi_octets stamp encoding_type
pdu_decode-seven_bit_example =
    pdu_decode-seven_bit (from_phone 0x04 0x00) stale (13 ∷ 10 ∷ []) (13 ∷ 10 ∷ []) hello
      hello_packed 0xe8 0 (omega arith) crlf-IsNoise (omega arith) (omega arith) refl refl
      (omega arith) (omega arith) (omega arith) (omega arith)

-- Part 2 of 3, reference 0x2a, with the text of two Chinese characters.
pdu_decode-ucs2_fragment_example :
    (text : List ℕ) × (pdu_decode stale (
        some (
          ascii ""
          ++ (hex_text (
                header
                  (from_phone 0x44 0x08)
                  (10 ∷ fragment_bytes (short 0x2a 3 2) (be_units (0x4f60 ∷ 0x597d ∷ []))))
              ++ ascii "")))
      ≡ ok (record {
        sender = sender_text (from_phone 0x44 0x08);
        timestamp = date_text noon;
        text = text;
        concat = fragment_info (short 0x2a 3 2);
      }))
    × IsUtf8For (0x4f60 ∷ 0x597d ∷ []) text
unfolding header address_on semi_octets stamp encoding_type fragment_bytes be_units
pdu_decode-ucs2_fragment_example =
    pdu_decode-ucs2_fragment (from_phone 0x44 0x08) (short 0x2a 3 2) stale [] [] (0x597d ∷ [])
      0x4f60 10 (omega arith) (record { blanks = tt; ends = tt }) (omega arith) (omega arith) refl
      refl (omega arith)

pdu_decode-Ensures_example : Ensures FitsArrays (pdu_decode stale (some (ascii "00040d91")))
pdu_decode-Ensures_example = pdu_decode-Ensures stale (some (ascii "00040d91")) (omega arith)

gsm7bit_decode-digits_example : gsm7bit_decode (7 ∷ 0xe8 ∷ hello_packed ++ (9 ∷ [])) 1 5 ≡ ok hello
gsm7bit_decode-digits_example =
    gsm7bit_decode-digits (7 ∷ 0xe8 ∷ hello_packed ++ (9 ∷ [])) hello (0xe8 ∷ hello_packed) (9 ∷ [])
      1 0 refl (omega arith) (omega arith) (omega arith) (omega arith)

ucs2_to_utf8-scan_example :
    (text : List ℕ) × (ucs2_to_utf8 (0x4f ∷ 0x60 ∷ 0x00 ∷ 0x41 ∷ []) 0 4 ≡ ok text)
    × (utf8_points text ≡ unit_points (0x4f60 ∷ 0x41 ∷ []))
    × (length text ≤ 6)
unfolding be_units
ucs2_to_utf8-scan_example =
    ucs2_to_utf8-scan (0x4f ∷ 0x60 ∷ 0x00 ∷ 0x41 ∷ []) (0x4f60 ∷ 0x41 ∷ []) [] 0 (omega arith) refl

decode_text-overread_example : decode_text stale 30 5 9 eight_bit true 5 ≡ fault
decode_text-overread_example = decode_text-overread stale 30 5 9 5 true refl (omega arith)

gsm7bit_decode-overread_example : gsm7bit_decode stale 200 80 ≡ fault
gsm7bit_decode-overread_example = gsm7bit_decode-overread stale 200 80 (omega arith) (omega arith)
