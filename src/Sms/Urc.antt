-- ===== src/Sms/Urc.antt =====
-- How messages enter the queue of sms_processor.c: the URC handler, the direct call and the scan
-- for messages left in the module. `xQueueSend` belongs to FreeRTOS: the handlers return the event
-- that they hand to it.
pub mod RoundTrip
use esp32c3_sms_gateway.Prelude.{
  ℕ, zero, suc, Bool, true, false, ◌||◌, ◌&&◌, Option, none, some, List, [], ◌∷◌, map, length, take,
  drop, get_elem?, leb, ltb, ◌==◌, if◌then◌else◌,
}
use esp32c3_sms_gateway.Prelude.Result.{EspErr, fail, invalid_size, Result, ok, err}
use esp32c3_sms_gateway.Prelude.Text.{ascii, copy_str, find_str, find_char}
use esp32c3_sms_gateway.Sms.Task.{SmsEvent}

abbrev pub stored_event : ℕ → SmsEvent
stored_event index = record { is_stored = true; sms_index = index; pdu_hex = [] }

abbrev pub direct_event : List ℕ → SmsEvent
direct_event hex = record { is_stored = false; sms_index = 0; pdu_hex = hex }

abbrev pub is_line_end : ℕ → Bool
is_line_end c = c == 13 || c == 10

-- The loop that takes line ends off the end of the text.
unfoldable pub trimmed_len : List ℕ → ℕ → ℕ
trimmed_len text zero = 0
trimmed_len text (suc n) =
    let shorter = trimmed_len text n in
    elim (get_elem? text n) [ none ↦ suc n | some c ↦ if is_line_end c then shorter else suc n ]

-- The event of a "+CMT" notification: the second line, without its line end.
unfoldable pub direct_line : List ℕ → Option SmsEvent
direct_line pdu_line =
    let len = trimmed_len pdu_line (length pdu_line) in
    if ltb 0 len && ltb len 512 then some (direct_event (take len pdu_line)) else none

-- `modem_sms_urc_handler` on the payload of a message notification. `atoi` is the C library's.
unfoldable pub urc_event : (List ℕ → ℕ) → List ℕ → Option SmsEvent
urc_event atoi payload = elim (find_str (ascii "+CMTI:") payload) [
  | some found ↦ elim (find_char b',' payload) [
    | some comma ↦ some (stored_event (atoi (drop 1 comma)))
    | none ↦ none
  ]
  | none ↦ elim (find_char 10 payload) [
    | some line ↦ elim (find_str (ascii "+CMT:") payload) [
      | some found ↦ direct_line (drop 1 line)
      | none ↦ none
    ]
    | none ↦ none
  ]
]

-- `sms_processor_enqueue_pdu`, where `accepts` says whether the queue takes the event.
unfoldable pub enqueue_pdu : (SmsEvent → Bool) → List ℕ → Result (Unit {0})
enqueue_pdu accepts pdu_hex =
    if leb 512 (length pdu_hex)
    then err invalid_size
    else if accepts (direct_event (copy_str 512 pdu_hex))
    then ok tt
    else err fail

-- `sms_processor_retry_failed_pushes`: the events of the indices that the module lists.
unfoldable pub retry_failed_pushes : Option (List ℕ) → List SmsEvent
retry_failed_pushes none = []
retry_failed_pushes (some indices) = map stored_event indices
