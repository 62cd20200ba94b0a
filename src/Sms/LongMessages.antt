-- ===== src/Sms/LongMessages.antt =====
-- A long message of two stored fragments through the loop of the task.
use esp32c3_sms_gateway.Prelude.{
  ℕ, ◌+◌, ◌-◌, ◌<◌, ◌≡◌, refl, arith, true, some, List, [], ◌∷◌, ◌++◌, ◌==◌, if◌then◌else◌,
}
use esp32c3_sms_gateway.Prelude.HexText.{hex_text}
use esp32c3_sms_gateway.Prelude.Result.{ok}
use esp32c3_sms_gateway.Prelude.Text.{c_str, copy_str}
use esp32c3_sms_gateway.Pdu.Decode.{encoding_type, pdu_decode}
use esp32c3_sms_gateway.Pdu.Address.RoundTrip.{semi_octets}
use esp32c3_sms_gateway.Pdu.Timestamp.RoundTrip.{stamp, date_text}
use esp32c3_sms_gateway.Pdu.Decode.Deliver.{header, address_on, sender_text}
use esp32c3_sms_gateway.Pdu.Samples.{noon, from_phone, stale}
use esp32c3_sms_gateway.Sms.Blacklist.{is_admin_phone, is_blacklisted}
use esp32c3_sms_gateway.Sms.Concat.{
  init_concat_buffer, find_slot, same_message, pick_slot, max_delay,
}
use esp32c3_sms_gateway.Sms.Concat.Invariant.{init-IsBuffer}
use esp32c3_sms_gateway.Sms.Concat.Reassembly.{LongMessage, IsOrderOf, mem}
use esp32c3_sms_gateway.Sms.Task.Fragments.{IsInTime}
use esp32c3_sms_gateway.Sms.Task.Delivery.{Brings, IsDelivered, sms_processor_task-IsDelivered}
use esp32c3_sms_gateway.Pdu.Decode.Fragment.{
  short, fragment_bytes, fragment_info, pdu_decode-ucs2_fragment,
}
use esp32c3_sms_gateway.Pdu.Text.Utf8.{be_units}
use esp32c3_sms_gateway.Sms.Task.{
  Settings, Pass, arrives, nothing, sms_processor_task, is_expired, elapsed_ms,
}
use esp32c3_sms_gateway.Sms.Urc.{stored_event}

-- The stored PDU of part `i` + 1 of two, with a text of one Chinese character.
abbrev part_answer : ℕ → List ℕ
part_answer i =
    []
    ++ (hex_text (
          header (from_phone 0x44 0x08)
            (8 ∷ fragment_bytes (short 7 2 (i + 1)) (be_units (0x4f60 ∷ []))))
        ++ [])

abbrev IsPartText : ℕ → List ℕ → Type 0
IsPartText i text =
    pdu_decode stale (some (part_answer i))
    ≡ ok (record {
      sender = sender_text (from_phone 0x44 0x08);
      timestamp = date_text noon;
      text = text;
      concat = fragment_info (short 7 2 (i + 1));
    })

part_text : (i : ℕ) → i < 2 → (text : List ℕ) × IsPartText i text
unfolding header address_on semi_octets stamp encoding_type fragment_bytes be_units
part_text i h =
    let (text, decoded, meaning) =
      pdu_decode-ucs2_fragment (from_phone 0x44 0x08) (short 7 2 (i + 1)) stale [] [] [] 0x4f60 8
        (omega arith) (record { blanks = tt; ends = tt }) (omega (arith, h)) (omega arith) refl refl
        (omega arith) in
    (text, decoded)

-- The two parts; the second one comes first.
abbrev two_parts : LongMessage
two_parts = record {
  ref = 7;
  sender = sender_text (from_phone 0x44 0x08);
  parts = 2;
  is_stored = true;
  text = λ i. if i == 0 then (part_text 0 (omega arith)).0 else (part_text 1 (omega arith)).0;
  timestamp = λ i. date_text noon;
  sms_index = λ i. i + 4;
  arrival = λ i. 102 - i;
}

abbrev two_passes : List Pass
two_passes =
    arrives (stored_event 5) (some (part_answer 1)) 101 101
    ∷ nothing 150
    ∷ arrives (stored_event 4) (some (part_answer 0)) 102 160
    ∷ []

backwards-IsOrderOf : IsOrderOf 2 (1 ∷ 0 ∷ [])
unfolding mem
backwards-IsOrderOf = record {
  no_repeat = (refl, (refl, tt));
  count = refl;
  in_range = omega arith;
  covers = λ j lt. ground arith;
}

abbrev no_settings : Settings
no_settings = record { admin_phone = []; black_list = [] }

init-IsInTime : (later : ℕ) → elapsed_ms later 101 < 30000 → IsInTime init_concat_buffer 101 later
unfolding is_expired
init-IsInTime later h = (h, (refl, (refl, (refl, (refl, (refl, tt))))))

two_passes-Brings :
    Brings no_settings stale two_parts init_concat_buffer 101 (1 ∷ 0 ∷ []) two_passes
unfolding fragment_info elapsed_ms
two_passes-Brings = (
  record {
    pdu_hex = part_answer 1;
    sms = _;
    read = refl;
    decodes = (part_text 1 (omega arith)).1;
    numbered = refl;
    same = refl;
    at = refl;
  },
  init-IsInTime 101 (omega arith),
  (
    init-IsInTime 150 (omega arith),
    (
      record {
        pdu_hex = part_answer 0;
        sms = _;
        read = refl;
        decodes = (part_text 0 (omega arith)).1;
        numbered = refl;
        same = refl;
        at = refl;
      },
      init-IsInTime 160 (omega arith),
      refl,
    ),
  ),
)

sms_processor_task-IsDelivered_example :
    IsDelivered no_settings stale two_parts init_concat_buffer
      (pick_slot init_concat_buffer 0 0 max_delay)
      (copy_str 32 (date_text noon))
      (sms_processor_task no_settings stale two_passes init_concat_buffer)
unfolding find_slot same_message copy_str c_str is_blacklisted is_admin_phone
sms_processor_task-IsDelivered_example =
    sms_processor_task-IsDelivered no_settings stale two_parts two_passes 1 (0 ∷ [])
      init_concat_buffer init-IsBuffer refl refl (ground arith) (omega arith) backwards-IsOrderOf
      two_passes-Brings
