-- ===== src/Sms/Task/Events.antt =====
-- Whole messages through the event handler: from the modem's text to the call of the push service.
use esp32c3_sms_gateway.Prelude.{
  ℕ, ◌+◌, ◌*◌, ◌^◌, ◌≤◌, ◌≡◌, refl, arith, true, false, Option, some, List, [], ◌∷◌, ◌++◌, length,
  All, if◌then◌else◌,
}
use esp32c3_sms_gateway.Prelude.HexText.{hex_text, IsByte}
use esp32c3_sms_gateway.Prelude.Result.{ok}
use esp32c3_sms_gateway.Prelude.Text.{c_str}
use esp32c3_sms_gateway.Pdu.Text.Septets.{le_value, IsSeptet}
use esp32c3_sms_gateway.Pdu.Timestamp.RoundTrip.{date_text}
use esp32c3_sms_gateway.Pdu.Decode.{DecodedSms, no_concat, seven_bit, encoding_type, pdu_decode}
use esp32c3_sms_gateway.Pdu.Decode.Deliver.{Header, IsHeader, header, sender_text, has_udh}
use esp32c3_sms_gateway.Pdu.Decode.Conversion.{IsNoise}
use esp32c3_sms_gateway.Pdu.Decode.SevenBit.{pdu_decode-seven_bit}
use esp32c3_sms_gateway.Sms.Blacklist.{is_blacklisted}
use esp32c3_sms_gateway.Sms.Concat.{Slot, Push}
use esp32c3_sms_gateway.Sms.Task.{
  SmsEvent, Settings, send_with_ack, pdu_of, handle_sms, handle_decoded, handle_event,
}

-- A 7-bit message of at most 255 bytes: header, septets and their packed form.
pub record SevenBitMessage : Type 0 where
  pub head : Header
  pub septets : List ℕ
  pub first_byte : ℕ
  pub payload : List ℕ
  pub padding : ℕ

abbrev pub user_data : SevenBitMessage → List ℕ
user_data m = length m.septets ∷ m.first_byte ∷ m.payload

abbrev pub message_bytes : SevenBitMessage → List ℕ
message_bytes m = header m.head (user_data m)

pub record IsMessage (m : SevenBitMessage) : Type 0 where
  pub well_formed : IsHeader m.head
  pub bytes : All IsByte (message_bytes m)
  pub fits : length (message_bytes m) ≤ 255
  pub single : has_udh m.head ≡ false
  pub alphabet : encoding_type m.head.dcs ≡ seven_bit
  pub packed_bytes : All IsByte (m.first_byte ∷ m.payload)
  pub septets_small : All IsSeptet m.septets
  pub enough : 7 * length m.septets ≤ 8 * length (m.first_byte ∷ m.payload)
  pub packed :
      le_value 256 (m.first_byte ∷ m.payload)
      ≡ le_value 128 m.septets + 128 ^ length m.septets * m.padding

abbrev pub decoded : SevenBitMessage → DecodedSms
decoded m = record {
  sender = sender_text m.head;
  timestamp = date_text m.head.sent;
  text = m.septets;
  concat = no_concat;
}

-- What the push service is asked to send: the text up to its first NUL, which is the septet of the at
-- sign, with the storage index of a stored message.
abbrev pub push_of : SmsEvent → SevenBitMessage → Push
push_of evt m = record {
  sender = sender_text m.head;
  text = c_str m.septets;
  timestamp = date_text m.head.sent;
  indexes = if evt.is_stored then evt.sms_index ∷ [] else [];
}

pdu_decode-message :
    (m : SevenBitMessage) (stale front back : List ℕ)
    → IsMessage m
    → IsNoise front back
    → pdu_decode stale (some (front ++ (hex_text (message_bytes m) ++ back))) ≡ ok (decoded m)
pdu_decode-message m stale front back h noise =
    pdu_decode-seven_bit m.head stale front back m.septets m.payload m.first_byte m.padding
      h.well_formed noise h.bytes (omega (arith, h.fits)) h.single h.alphabet h.packed_bytes
      h.septets_small h.enough h.packed

-- Whether its text is read from the module or came with the notification, and whatever blanks and
-- line ends stand around it, a 7-bit message of a sender who is not on the black list makes one
-- call: the push of its sender, its text up to the first septet 0 (an at sign) and its time stamp,
-- with the index of a stored message. The reassembly buffer stays as it is.
pub handle_event-message :
    (settings : Settings) (stale front back : List ℕ) (evt : SmsEvent) (answer : Option (List ℕ))
    (m : SevenBitMessage) (now : ℕ) (buf : List Slot)
    → IsMessage m
    → IsNoise front back
    → pdu_of evt answer ≡ some (front ++ (hex_text (message_bytes m) ++ back))
    → is_blacklisted settings.admin_phone settings.black_list (sender_text m.head) ≡ false
    → handle_event settings stale evt answer now buf
      ≡ ok (buf, send_with_ack (push_of evt m) ∷ [], true)
unfolding handle_event handle_decoded handle_sms
handle_event-message settings stale front back evt answer m now buf h noise e allowed =
    rw (e, pdu_decode-message m stale front back h noise, allowed, handle_event) refl
