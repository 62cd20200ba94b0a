-- ===== src/Sms/Examples.antt =====
-- Concrete messages, numbers and settings through the theorems on the SMS processor.
use esp32c3_sms_gateway.Prelude.{
  ℕ, ◌≡◌, ◌≢◌, ◌↔◌, refl, inl, arith, true, false, none, some, List, [], ◌∷◌, ◌++◌, length, map,
  replicate,
}
use esp32c3_sms_gateway.Prelude.HexText.{hex_text}
use esp32c3_sms_gateway.Prelude.Result.{ok, Returns}
use esp32c3_sms_gateway.Prelude.Text.{ascii}
use esp32c3_sms_gateway.Pdu.Hex.{hex_char_to_int}
use esp32c3_sms_gateway.Pdu.Decode.{encoding_type}
use esp32c3_sms_gateway.Pdu.Decode.Conversion.{IsNoise}
use esp32c3_sms_gateway.Pdu.Address.RoundTrip.{semi_octets}
use esp32c3_sms_gateway.Pdu.Timestamp.RoundTrip.{stamp}
use esp32c3_sms_gateway.Pdu.Decode.Deliver.{header, address_on}
use esp32c3_sms_gateway.Pdu.Samples.{from_phone, hello, hello_packed, stale}
use esp32c3_sms_gateway.Sms.Phone.{phone_equals, is_empty}
use esp32c3_sms_gateway.Sms.Phone.Equality.{number, bare, phone_equals_iff}
use esp32c3_sms_gateway.Sms.Blacklist.{is_admin_phone, is_blacklisted}
use esp32c3_sms_gateway.Sms.Blacklist.Names.{Entry, joined, names, IsListed, is_blacklisted_iff}
use esp32c3_sms_gateway.Sms.Concat.{
  Slot, Fragment, init_concat_buffer, zero_slot, zero_part, find_slot, same_message,
  receive_fragment,
}
use esp32c3_sms_gateway.Sms.Concat.Invariant.{BufferOf, receive_fragment-Returns, init-IsBuffer}
use esp32c3_sms_gateway.Sms.Task.{
  SmsEvent, Settings, send_with_ack, sweep, elapsed_ms, handle_event,
}
use esp32c3_sms_gateway.Sms.Task.Sweep.{retire, reports, sweep-reports}
use esp32c3_sms_gateway.Sms.Task.LateFragment.{Overreads, late_fragment-overread}
use esp32c3_sms_gateway.Sms.Urc.{direct_event, stored_event, urc_event}
use esp32c3_sms_gateway.Modem.Lines.{urc_line, receive, sms_received, process_urc_line}
use esp32c3_sms_gateway.Sms.Received.Notification.{IsInfo, pdu_line}
use esp32c3_sms_gateway.Sms.Received.{receive-handle_event}
use esp32c3_sms_gateway.Sms.Task.Events.{
  SevenBitMessage, IsMessage, message_bytes, push_of, handle_event-message,
}

-- The third of eleven parts.
abbrev of_eleven : Fragment
of_eleven = record {
  ref_number = 7;
  sender = ascii "+861";
  timestamp = ascii "26-01-31 12:00:59";
  text = ascii "ab";
  total_parts = 11;
  part_number = 3;
  sms_index = 0;
  is_stored = false;
}

receive_fragment-Returns_example :
    Returns BufferOf (receive_fragment of_eleven 100 init_concat_buffer)
receive_fragment-Returns_example =
    receive_fragment-Returns of_eleven 100 init_concat_buffer init-IsBuffer

late_fragment-overread_example :
    Returns (Overreads 3100) (receive_fragment of_eleven 100 init_concat_buffer)
unfolding find_slot same_message elapsed_ms
late_fragment-overread_example =
    late_fragment-overread of_eleven 100 3100 init_concat_buffer init-IsBuffer refl (omega arith)
      (omega arith)

-- One part of two has come in slot 0.
abbrev waiting : List Slot
waiting =
    record zero_slot {
      in_use = true;
      sender = ascii "+861";
      total_parts = 2;
      received_parts = 1;
      first_part_time = 100;
      parts = record { valid = true; sms_index = 4; text = ascii "ab" } ∷ replicate 9 zero_part;
    }
    ∷ zero_slot
    ∷ []

sweep-reports_example : sweep 3100 waiting ≡ ok (map (retire 3100) waiting, reports 3100 waiting)
sweep-reports_example = sweep-reports 3100 waiting (λ _. omega arith, (λ _. omega arith, tt))

phone_equals_iff_example : (phone_equals (ascii "+86 138") (ascii "86-138") ≡ true) ↔ (
    (number (ascii "+86 138") ≢ [])
    × ((number (ascii "86-138") ≢ [])
        × (bare (number (ascii "+86 138")) ≡ bare (number (ascii "86-138")))))
phone_equals_iff_example = phone_equals_iff (ascii "+86 138") (ascii "86-138")

-- "10086, 95555"
abbrev two_names : List Entry
two_names = record { name = ascii "10086"; delimiter = b','; more = b' ' ∷ [] } ∷ []

is_blacklisted_iff_example :
    (is_blacklisted (ascii "139") (joined two_names (ascii "95555")) (ascii "95555") ≡ true) ↔ (
      (is_empty (ascii "95555") ≡ false)
      × ((is_admin_phone (ascii "139") (ascii "95555") ≡ false)
          × IsListed (ascii "95555") (names two_names (ascii "95555"))))
unfolding joined
is_blacklisted_iff_example =
    is_blacklisted_iff (ascii "139") (ascii "95555") two_names (ascii "95555")
      (record { named = refl; plain = ground arith; delimited = ground arith }, tt) (ground arith)
      (ground arith) (omega arith)

abbrev hello_message : SevenBitMessage
hello_message = record {
  head = from_phone 0x04 0x00;
  septets = hello;
  first_byte = 0xe8;
  payload = hello_packed;
  padding = 0;
}

hello-IsMessage : IsMessage hello_message
unfolding header address_on semi_octets stamp encoding_type
hello-IsMessage = record {
  well_formed = omega arith;
  bytes = omega arith;
  fits = omega arith;
  single = refl;
  alphabet = refl;
  packed_bytes = omega arith;
  septets_small = omega arith;
  enough = omega arith;
  packed = omega arith;
}

line_end-IsNoise : IsNoise [] (13 ∷ 10 ∷ [])
unfolding hex_char_to_int
line_end-IsNoise = record { blanks = tt; ends = inl refl }

abbrev no_settings : Settings
no_settings = record { admin_phone = []; black_list = [] }

handle_event-message_example :
    handle_event no_settings stale
      (stored_event 3)
      (some (hex_text (message_bytes hello_message) ++ (13 ∷ 10 ∷ [])))
      100
      init_concat_buffer
    ≡ ok (init_concat_buffer, send_with_ack (push_of (stored_event 3) hello_message) ∷ [], true)
unfolding is_blacklisted is_admin_phone
handle_event-message_example =
    handle_event-message no_settings stale [] (13 ∷ 10 ∷ []) (stored_event 3)
      (some (hex_text (message_bytes hello_message) ++ (13 ∷ 10 ∷ []))) hello_message 100
      init_concat_buffer hello-IsMessage line_end-IsNoise refl (ground arith)

ordinary-IsInfo : (c : ℕ) → c ≢ b'>' → c ≢ 10 → c ≢ 0 → c ≢ b'+' → IsInfo c
ordinary-IsInfo c a b d e = (((a, b), d), e)

receive-handle_event_example :
    let (last, signals) =
      receive
        ((ascii "+CMT:" ++ (b' ' ∷ 13 ∷ [])) ++ 10 ∷ (pdu_line hello_message ++ 10 ∷ []))
        (record { line = []; pending = none; shared = none }) in
    (payload : List ℕ) × ((evt : SmsEvent) × ((signals ≡ urc_line payload ∷ [])
        × (process_urc_line payload ≡ some sms_received)
        × (urc_event (λ s. length s) payload ≡ some evt)
        × (handle_event no_settings stale evt none 100 init_concat_buffer
            ≡ ok (
              init_concat_buffer,
              send_with_ack (push_of (direct_event []) hello_message) ∷ [],
              true,
            ))))
unfolding is_blacklisted is_admin_phone header address_on semi_octets stamp
receive-handle_event_example =
    receive-handle_event hello_message hello-IsMessage (omega arith) no_settings (λ s. length s)
      stale (b' ' ∷ 13 ∷ []) none none 100 init_concat_buffer
      (
        ordinary-IsInfo b' ' (ground arith) (ground arith) (ground arith) (ground arith),
        (ordinary-IsInfo 13 (ground arith) (ground arith) (ground arith) (ground arith), tt),
      )
      (omega arith) (ground arith)
