-- ===== src/Modem/Lines.antt =====
-- The loop of `modem_event_task` over the bytes received, and `process_urc_line`.
pub mod Direct
use esp32c3_sms_gateway.Prelude.{
  ℕ, zero, suc, ◌+◌, ◌-◌, Bool, true, false, ◌&&◌, ◌||◌, Option, none, some, List, [], ◌∷◌, ◌++◌,
  get_elem?, length, take, drop, ltb, ◌==◌, if◌then◌else◌,
}
use esp32c3_sms_gateway.Prelude.Text.{ascii, starts, find_str, c_str, copy_str}

-- `shared_resp_buf`: the text collected so far and the size of the buffer.
pub record Shared : Type 0 where
  pub text : List ℕ
  pub max_len : ℕ

-- The line so far, the header of a message whose body is to come, and the buffer of a command.
pub record Parser : Type 0 where
  pub line : List ℕ
  pub pending : Option (List ℕ)
  pub shared : Option Shared

-- A flag that is set, or a line for `process_urc_line`.
pub data Signal : Type 0 where
  prompt_flag ok_flag error_flag : Signal
  urc_line : List ℕ → Signal

abbrev pub has : List ℕ → List ℕ → Bool
has needle s = elim (find_str needle s) [ none ↦ false | some p ↦ true ]

abbrev pub is_blank : ℕ → Bool
is_blank c = c == 13 || (c == 10 || (c == b' ' || c == 9))

unfoldable pub skip_blank : List ℕ → List ℕ
skip_blank [] = []
skip_blank (c ∷ s) = let rest = skip_blank s in if is_blank c then rest else c ∷ s

-- The copy into the buffer of the command that waits.
abbrev pub collect : List ℕ → Option Shared → Option Shared
collect line none = none
collect line (some sh) =
    if ltb (length sh.text) sh.max_len
    then some (record {
      text = sh.text ++ take (sh.max_len - length sh.text - 1) (c_str line);
      max_len = sh.max_len;
    })
    else some sh

-- "OK" and the end of the line.
abbrev pub is_ok : List ℕ → Bool
is_ok trimmed =
    starts (ascii "OK") trimmed
    && (elim (get_elem? trimmed 2) [ none ↦ true | some c ↦ c == 0 || (c == 13 || c == 10) ])

abbrev pub is_error : List ℕ → List ℕ → Bool
is_error trimmed line = starts (ascii "ERROR") trimmed || has (ascii "+CME ERROR:") line

-- A first character of a notification.
abbrev pub is_urc : List ℕ → Bool
is_urc [] = false
is_urc (c ∷ s) = c == b'+' || c == b'$'

-- What follows for the pending header, and the signals of a line that ends.
unfoldable pub route_line : List ℕ → Option (List ℕ) → Option (List ℕ) × List Signal
route_line line pending =
    let trimmed = skip_blank line in
    if is_ok trimmed
    then (pending, ok_flag ∷ [])
    else if is_error trimmed line
    then (pending, error_flag ∷ [])
    else if is_urc line
    then (if starts (ascii "+CMT:") trimmed
        then (some (copy_str 128 trimmed), [])
        else (none, urc_line trimmed ∷ []))
    else elim pending [
      | none ↦ (none, [])
      | some header ↦ (none, urc_line (take 2175 (header ++ 13 ∷ 10 ∷ line)) ∷ [])
    ]

-- A byte of the UART; a line ends for its readers at its first NUL.
unfoldable pub receive_byte : ℕ → Parser → Parser × List Signal
receive_byte c p =
    let line = if ltb (length p.line) 1023 then p.line ++ c ∷ [] else p.line in
    let (pending, signals) = route_line (c_str line) p.pending in
    if c == b'>'
    then (p, prompt_flag ∷ [])
    else if c == 10
    then (record { line = []; pending = pending; shared = collect line p.shared }, signals)
    else (record { line = line; pending = p.pending; shared = p.shared }, [])

unfoldable pub receive : List ℕ → Parser → Parser × List Signal
receive [] p = (p, [])
receive (c ∷ s) p =
    let (next, now) = receive_byte c p in let (last, later) = receive s next in (last, now ++ later)

pub data UrcEvent : Type 0 where
  sms_received call_ringing ping_report net_changed gnss_updated : UrcEvent

-- `process_urc_line`: the event that its handlers get, `none` for a line that is dropped.
unfoldable pub process_urc_line : List ℕ → Option UrcEvent
process_urc_line line =
    if has (ascii "+CMT:") line || has (ascii "+CMTI:") line
    then some sms_received
    else if has (ascii "+CLIP:") line
    then some call_ringing
    else if has (ascii "+MPING:") line
    then some ping_report
    else if has (ascii "+CEREG:") line || has (ascii "+CREG:") line
    then some net_changed
    else if has (ascii "+MGNSS:") line
        || (starts (ascii "$GN") line
            || (starts (ascii "$GP") line
                || (starts (ascii "$BD") line || starts (ascii "$GL") line)))
    then some gnss_updated
    else none
