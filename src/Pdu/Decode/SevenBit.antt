-- ===== src/Pdu/Decode/SevenBit.antt =====
-- Whole 7-bit messages through `pdu_decode`.
use esp32c3_sms_gateway.Prelude.{
  ℕ, ◌+◌, ◌*◌, ◌^◌, ◌≤◌, ◌≡◌, ◌∙◌, arith, false, some, List, ◌∷◌, ◌++◌, length, drop, drop-suc, All,
  get_elem?-drop,
}
use esp32c3_sms_gateway.Prelude.HexText.{hex_text, IsByte}
use esp32c3_sms_gateway.Prelude.Result.{ok}
use esp32c3_sms_gateway.Pdu.Text.Septets.{le_value, IsSeptet, gsm7bit_decode-digits}
use esp32c3_sms_gateway.Pdu.Timestamp.RoundTrip.{date_text}
use esp32c3_sms_gateway.Pdu.Decode.{
  no_concat, seven_bit, encoding_type, decode_user_data, parse_udh, decode_text, septets_left,
  pdu_decode,
}
use esp32c3_sms_gateway.Pdu.Decode.Deliver.{
  Header, IsHeader, header, header_len, sender_text, has_udh, at_user_data,
}
use native.Mathlib.Numerals.{add-one}
use esp32c3_sms_gateway.Pdu.Decode.Conversion.{IsNoise, pdu_decode-header}

-- The user data without a header: its length byte and the septets.
decode_user_data-septets :
    (buf septets more payload sender timestamp : List ℕ) (p idx rest : ℕ)
    → drop idx buf ≡ length septets ∷ p ∷ payload ++ more
    → All IsByte (p ∷ payload)
    → All IsSeptet septets
    → 7 * length septets ≤ 8 * length (p ∷ payload)
    → le_value 256 (p ∷ payload) ≡ le_value 128 septets + 128 ^ length septets * rest
    → decode_user_data buf (idx + (length (p ∷ payload) + 1)) idx false seven_bit sender timestamp
      ≡ ok (record { sender = sender; timestamp = timestamp; text = septets; concat = no_concat })
unfolding decode_user_data parse_udh decode_text septets_left
decode_user_data-septets buf septets more payload sender timestamp p idx rest e bytes small enough
      v =
    let e1 : drop (idx + 1) buf ≡ p ∷ payload ++ more = rw add-one (drop-suc idx buf e) in
    let start : idx + 1 + 0 ≡ idx + 1 = omega arith in
    ground (
      arith,
      get_elem?-drop idx buf e,
      start,
      gsm7bit_decode-digits buf septets (p ∷ payload) more (idx + 1) rest e1 bytes small enough v,
    )

-- A 7-bit message without a user data header: whatever stood on the stack, whatever blanks stand
-- in front of the text and whatever follows it, the sender, the date and the septets come back,
-- and the message is no fragment. The septets are the digits in base 128 of the payload.
pub pdu_decode-seven_bit :
    (m : Header) (stale front back septets payload : List ℕ) (p rest : ℕ)
    → IsHeader m
    → IsNoise front back
    → All IsByte (header m (length septets ∷ p ∷ payload))
    → length (header m (length septets ∷ p ∷ payload)) ≤ 256
    → has_udh m ≡ false
    → encoding_type m.dcs ≡ seven_bit
    → All IsByte (p ∷ payload)
    → All IsSeptet septets
    → 7 * length septets ≤ 8 * length (p ∷ payload)
    → le_value 256 (p ∷ payload) ≡ le_value 128 septets + 128 ^ length septets * rest
    → pdu_decode stale
        (some (front ++ (hex_text (header m (length septets ∷ p ∷ payload)) ++ back)))
      ≡ ok (record {
        sender = sender_text m;
        timestamp = date_text m.sent;
        text = septets;
        concat = no_concat;
      })
pdu_decode-seven_bit m stale front back septets payload p rest wf noise bytes fits no_udh seven
      small digits enough v =
    let user = length septets ∷ p ∷ payload in
    let (more, reached) =
      pdu_decode-header m stale front back user wf noise bytes fits (omega arith) in
    let last : header_len m + length user ≡ header_len m + (length (p ∷ payload) + 1) =
      omega arith in
    reached
    ∙ rw (no_udh, seven, last)
        (decode_user_data-septets (header m (user ++ more)) septets more payload _ _ p
          (header_len m) rest (at_user_data m (user ++ more)) small digits enough v)
