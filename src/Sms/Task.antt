-- ===== src/Sms/Task.antt =====
-- The task of sms_processor.c: one event, then the sweep over long messages that wait too long.
-- A pass of the loop is a function from the buffer to the new buffer and the calls it makes, in
-- their order. An `int` index stands by its 32-bit pattern, a tick count likewise.
pub mod Sweep
pub mod Overread
pub mod LateFragment
pub mod Events
pub mod Fragments
pub mod Delivery
use esp32c3_sms_gateway.Prelude.{
  ℕ, zero, suc, ◌+◌, ◌-◌, ◌*◌, ◌^◌, ◌%◌, Bool, true, false, ◌&&◌, Option, none, some, List, [], ◌∷◌,
  ◌++◌, ltb, leb, if◌then◌else◌,
}
use esp32c3_sms_gateway.Prelude.Result.{Result, ok, err, fault, stuck, read, ◌>>=◌}
use esp32c3_sms_gateway.Prelude.Text.{c_str, copy_str}
use esp32c3_sms_gateway.Pdu.Decode.{DecodedSms, pdu_decode}
use esp32c3_sms_gateway.Sms.Blacklist.{is_blacklisted}
use esp32c3_sms_gateway.Sms.Concat.{Part, Slot, Fragment, Push, append_text, receive_fragment}

-- `sms_event_t`
pub record SmsEvent : Type 0 where
  pub is_stored : Bool
  pub sms_index : ℕ
  pub pdu_hex : List ℕ

-- The settings that the task reads.
pub record Settings : Type 0 where
  pub admin_phone : List ℕ
  pub black_list : List ℕ

-- The calls of other components: `push_service_send_with_ack` and `modem_delete_sms`.
pub data Call : Type 0 where
  send_with_ack : Push → Call
  delete_sms : ℕ → Call

abbrev pub delete_if_stored : SmsEvent → List Call
delete_if_stored evt = if evt.is_stored then delete_sms evt.sms_index ∷ [] else []

abbrev pub fragment : SmsEvent → DecodedSms → Fragment
fragment evt sms = record {
  ref_number = sms.concat.ref_number;
  sender = sms.sender;
  timestamp = sms.timestamp;
  text = sms.text;
  total_parts = sms.concat.total_parts;
  part_number = sms.concat.part_number;
  sms_index = evt.sms_index;
  is_stored = evt.is_stored;
}

abbrev pub is_fragment : DecodedSms → Bool
is_fragment sms =
    sms.concat.is_concat && ltb 1 sms.concat.total_parts && ltb 0 sms.concat.part_number

-- The text goes to the push service as a C string.
abbrev pub single_push : SmsEvent → DecodedSms → Push
single_push evt sms = record {
  sender = sms.sender;
  text = c_str sms.text;
  timestamp = sms.timestamp;
  indexes = if evt.is_stored then evt.sms_index ∷ [] else [];
}

abbrev pub calls_of : Option Push → List Call
calls_of none = []
calls_of (some p) = send_with_ack p ∷ []

-- How the event ends: the buffer, the calls, and whether the pass goes on to the sweep.
abbrev pub Handled : Type 0
Handled = List Slot × List Call × Bool

unfoldable pub handle_sms : Settings → SmsEvent → DecodedSms → ℕ → List Slot → Result Handled
handle_sms settings evt sms now buf =
    if is_blacklisted settings.admin_phone settings.black_list sms.sender
    then ok (buf, delete_if_stored evt, false)
    else if is_fragment sms
    then (do
      (buf', done) ← receive_fragment (fragment evt sms) now buf
      ok (buf', calls_of done, true))
    else ok (buf, send_with_ack (single_push evt sms) ∷ [], true)

-- `pdu_hex_buf`, where it is ready; `answer` is what `modem_read_sms_pdu` leaves in it.
abbrev pub pdu_of : SmsEvent → Option (List ℕ) → Option (List ℕ)
pdu_of evt answer = if evt.is_stored then answer else some (copy_str 512 evt.pdu_hex)

unfoldable pub handle_decoded :
    Settings → SmsEvent → Result DecodedSms → ℕ → List Slot → Result Handled
handle_decoded settings evt (ok sms) now buf = handle_sms settings evt sms now buf
handle_decoded settings evt (err e) now buf = ok (buf, delete_if_stored evt, true)
handle_decoded settings evt fault now buf = fault
handle_decoded settings evt stuck now buf = stuck

-- The part of the loop body under `xQueueReceive`; `stale` is the stack behind `buf` of pdu_decode.
unfoldable pub handle_event :
    Settings → List ℕ → SmsEvent → Option (List ℕ) → ℕ → List Slot → Result Handled
handle_event settings stale evt answer now buf = elim (pdu_of evt answer) [
  | none ↦ ok (buf, [], true)
  | some pdu_hex ↦ handle_decoded settings evt (pdu_decode stale (some pdu_hex)) now buf
]

-- "\n[缺失的短信分段]\n"
abbrev pub missing_part : List ℕ
missing_part =
    0xa ∷ 0x5b ∷ 0xe7 ∷ 0xbc ∷ 0xba ∷ 0xe5 ∷ 0xa4 ∷ 0xb1 ∷ 0xe7 ∷ 0x9a ∷ 0x84 ∷ 0xe7 ∷ 0x9f ∷ 0xad
    ∷ 0xe4 ∷ 0xbf ∷ 0xa1 ∷ 0xe5 ∷ 0x88 ∷ 0x86 ∷ 0xe6 ∷ 0xae ∷ 0xb5 ∷ 0x5d ∷ 0xa ∷ []

-- `CONCAT_TIMEOUT_MS`
abbrev pub concat_timeout : ℕ
concat_timeout = 30000

-- `portTICK_PERIOD_MS`, with `CONFIG_FREERTOS_HZ` 100.
abbrev pub tick_period : ℕ
tick_period = 10

-- `(now - first) * portTICK_PERIOD_MS` on 32 bits.
unfoldable pub elapsed_ms : ℕ → ℕ → ℕ
elapsed_ms now first = ((now + 2 ^ 32 - first) % 2 ^ 32 * tick_period) % 2 ^ 32

-- The loop over parts `j` to `j + left - 1`: the valid ones and a mark for each missing one.
unfoldable pub join_expired : List Part → ℕ → ℕ → List ℕ → List ℕ → Result (List ℕ × List ℕ)
join_expired parts zero j full indexes = ok (full, indexes)
join_expired parts (suc left) j full indexes = do
  p ← read parts j
  join_expired parts left (j + 1) (append_text full (if p.valid then p.text else missing_part))
      (if p.valid then indexes ++ (p.sms_index ∷ []) else indexes)

unfoldable pub is_expired : ℕ → Slot → Bool
is_expired now s = s.in_use && leb concat_timeout (elapsed_ms now s.first_part_time)

-- The body of the sweep's loop for one slot.
unfoldable pub expire : ℕ → Slot → Result (Slot × List Call)
expire now s =
    if is_expired now s
    then (do
      (full, indexes) ← join_expired s.parts s.total_parts 0 [] []
      ok (
        record s { in_use = false },
        send_with_ack (record {
          sender = s.sender;
          text = full;
          timestamp = s.timestamp;
          indexes = indexes;
        })
            ∷ [],
      ))
    else ok (s, [])

unfoldable pub sweep : ℕ → List Slot → Result (List Slot × List Call)
sweep now [] = ok ([], [])
sweep now (s ∷ buf) = do
  (s', calls) ← expire now s
  (buf', later) ← sweep now buf
  ok (s' ∷ buf', calls ++ later)

-- A pass of the loop in which an event arrives at tick `now` and the sweep reads tick `later`.
unfoldable pub serve :
    Settings
    → List ℕ
    → SmsEvent
    → Option (List ℕ)
    → ℕ
    → ℕ
    → List Slot
    → Result (List Slot × List Call)
serve settings stale evt answer now later buf = do
  (buf', calls, goes_on) ← handle_event settings stale evt answer now buf
  if goes_on
      then (do (buf2, more) ← sweep later buf'; ok (buf2, calls ++ more))
      else ok (buf', calls)

-- What a pass of the loop finds: an event with the modem's answer, the tick at which it is handled and
-- that of the sweep, or no event in two seconds and the tick of the sweep.
pub data Pass : Type 0 where
  arrives : SmsEvent → Option (List ℕ) → ℕ → ℕ → Pass
  nothing : ℕ → Pass

unfoldable pub pass : Settings → List ℕ → Pass → List Slot → Result (List Slot × List Call)
pass settings stale (arrives evt answer now later) buf =
    serve settings stale evt answer now later buf
pass settings stale (nothing later) buf = sweep later buf

-- The loop of `sms_processor_task` over some passes.
unfoldable pub sms_processor_task :
    Settings → List ℕ → List Pass → List Slot → Result (List Slot × List Call)
sms_processor_task settings stale [] buf = ok (buf, [])
sms_processor_task settings stale (p ∷ ps) buf = do
  (buf', calls) ← pass settings stale p buf
  (last, more) ← sms_processor_task settings stale ps buf'
  ok (last, calls ++ more)
