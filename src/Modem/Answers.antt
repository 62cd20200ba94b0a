-- ===== src/Modem/Answers.antt =====
-- What modem_driver.c reads of the modem's answers. A reply is what `modem_send_at_command` returns and
-- leaves in the buffer of its caller; `atoi` is the C library's, with `none` for a negative number.
pub mod StoredPdu
use esp32c3_sms_gateway.Prelude.{
  ℕ, zero, suc, ◌+◌, ◌-◌, ◌/◌, Bool, true, false, ◌&&◌, ◌||◌, not, Option, none, some, List, [],
  ◌∷◌, ◌++◌, length, take, drop, ltb, leb, ◌==◌, if◌then◌else◌,
}
use esp32c3_sms_gateway.Prelude.Result.{
  EspErr, fail, invalid_arg, invalid_size, not_found, timeout, Result, ok, err, fail_if, ◌>>=◌,
  ◌>>◌,
}
use esp32c3_sms_gateway.Prelude.Text.{ascii, find_str, find_char, decimal}
use esp32c3_sms_gateway.Modem.Dialogue.{Reply}
use esp32c3_sms_gateway.Modem.Lines.{has}

-- What the flags of a command that has ended say: `none` is ESP_OK.
unfoldable pub final_status : Bool → Bool → Option EspErr
final_status ok_flag error_flag =
    if ok_flag then none else if error_flag then some fail else some timeout

unfoldable pub modem_wait_for_prompt : Bool → Option EspErr
modem_wait_for_prompt prompt_flag = if prompt_flag then none else some timeout

-- `if (!p) return code;`
abbrev pub or_fail {ℓ} : {A : Type ℓ} → EspErr → Option A → Result A
or_fail code none = err code
or_fail code (some a) = ok a

-- The line ends and spaces in front of a text.
unfoldable pub skip_line_ends : List ℕ → List ℕ
skip_line_ends [] = []
skip_line_ends (c ∷ s) =
    let rest = skip_line_ends s in if c == 13 || (c == 10 || c == b' ') then rest else c ∷ s

-- The text up to a line end.
unfoldable pub to_line_end : List ℕ → List ℕ
to_line_end [] = []
to_line_end (c ∷ s) = let rest = to_line_end s in if c == 13 || c == 10 then [] else c ∷ rest

-- `modem_read_sms_pdu`, on the reply to AT+CMGR.
unfoldable pub modem_read_sms_pdu : Reply → ℕ → Result (List ℕ)
modem_read_sms_pdu reply max_len = do
  fail_if (max_len == 0) invalid_arg
  elim reply.status [ none ↦ ok tt | some e ↦ err e ]
  header ← or_fail not_found (find_str (ascii "+CMGR:") reply.text)
  line ← or_fail fail (find_char 10 header)
  let pdu = to_line_end (skip_line_ends (drop 1 line))
  fail_if (length pdu == 0 || leb max_len (length pdu)) invalid_size
  ok pdu

-- `modem_get_smsc`, on the reply to AT+CSCA?.
unfoldable pub modem_get_smsc : Reply → ℕ → Result (List ℕ)
modem_get_smsc reply max_len = do
  fail_if (max_len == 0) invalid_arg
  elim reply.status [ none ↦ ok tt | some e ↦ err fail ]
  found ← or_fail fail (find_str (ascii "+CSCA:") reply.text)
  quote ← or_fail fail (find_char b'"' found)
  let start = drop 1 quote
  end ← or_fail fail (find_char b'"' start)
  let len = length start - length end
  ok (take (if leb max_len len then max_len - 1 else len) start)

-- The command of `modem_set_smsc`, and its result on the reply.
abbrev pub set_smsc_cmd : List ℕ → List ℕ
set_smsc_cmd smsc = take 63 (ascii "AT+CSCA=\"" ++ (smsc ++ ascii "\""))

unfoldable pub modem_set_smsc : Reply → Option EspErr
modem_set_smsc reply = elim reply.status [
  | none ↦ if has (ascii "OK") reply.text then none else some fail
  | some e ↦ some fail
]

abbrev pub delete_sms_cmd : ℕ → List ℕ
delete_sms_cmd index = take 31 (ascii "AT+CMGD=" ++ decimal index)

unfoldable pub skip_spaces : List ℕ → List ℕ
skip_spaces [] = []
skip_spaces (c ∷ s) = let rest = skip_spaces s in if c == b' ' then rest else c ∷ s

-- The loop over the lines of the list; each round reads at least six characters.
unfoldable pub index_loop : (List ℕ → Option ℕ) → ℕ → ℕ → List ℕ → List ℕ → List ℕ
index_loop atoi zero max_count p out = out
index_loop atoi (suc fuel) max_count p out = elim (find_str (ascii "+CMGL:") p) [
  | none ↦ out
  | some line ↦
      let rest = skip_spaces (drop 6 line) in
      if ltb (length out) max_count
      then index_loop atoi fuel max_count rest
          (elim (atoi rest) [ none ↦ out | some idx ↦ out ++ idx ∷ [] ])
      else out
]

-- `modem_get_all_sms_indices`, on the reply to AT+CMGL=4.
unfoldable pub modem_get_all_sms_indices : (List ℕ → Option ℕ) → Reply → ℕ → Result (List ℕ)
modem_get_all_sms_indices atoi reply max_count = do
  fail_if (max_count == 0) invalid_arg
  elim reply.status [
    | none ↦ ok (index_loop atoi (suc (length reply.text)) max_count reply.text [])
    | some e ↦ err e
  ]

-- `modem_ping_result_t`; `done` is the bit that ends the wait.
pub record PingResult : Type 0 where
  pub count : ℕ
  pub total_rtt : ℕ
  pub details : List ℕ
  pub done : Bool

-- The text behind the last comma but one, or behind the only one.
unfoldable pub rtt_field : List ℕ → Option (List ℕ)
rtt_field [] = none
rtt_field (c ∷ s) = elim (find_char b',' s) [
  | none ↦ if c == b',' then some s else none
  | some last ↦
      let later = rtt_field s in
      elim (find_char b',' (drop 1 last)) [
        | none ↦ if c == b',' then some s else later
        | some more ↦ later
      ]
]

-- `modem_ping_urc_handler` on the payload of a report.
unfoldable pub modem_ping_urc_handler : (List ℕ → Option ℕ) → List ℕ → PingResult → PingResult
modem_ping_urc_handler atoi payload r =
    if not (has (ascii "+MPING:") payload) || has (ascii "STAT") payload
    then r
    else elim (rtt_field payload) [
      | none ↦ r
      | some field ↦ elim (atoi field) [
        | none ↦ r
        | some rtt ↦
            let count = if ltb r.count 255 then r.count + 1 else r.count in
            let line = take 63 (
              ascii "Ping "
              ++ (decimal count ++ (ascii ": " ++ (decimal rtt ++ (ascii " ms" ++ 10 ∷ []))))) in
            record {
              count = count;
              total_rtt = r.total_rtt + rtt;
              details = r.details ++ take (512 - length r.details - 1) line;
              done = r.done || leb 4 count;
            }
      ]
    ]
