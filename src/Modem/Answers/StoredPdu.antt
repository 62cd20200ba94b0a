-- ===== src/Modem/Answers/StoredPdu.antt =====
-- The text of a stored message is read from the answer to AT+CMGR.
use esp32c3_sms_gateway.Prelude.{
  ℕ, ◌<◌, ◌≡◌, ◌≢◌, refl, ap, ◌∙◌, arith, false, ◌||◌, none, List, [], ◌∷◌, ◌++◌, length, All, leb,
  ◌==◌,
}
use esp32c3_sms_gateway.Prelude.Result.{ok}
use esp32c3_sms_gateway.Prelude.Text.{ascii, starts, find_str, find_char, find_char_first}
use esp32c3_sms_gateway.Modem.Dialogue.{Reply}
use esp32c3_sms_gateway.Modem.Answers.{skip_line_ends, to_line_end, modem_read_sms_pdu}

-- A character of the text: no line end and no space.
abbrev pub IsPduChar : ℕ → Type 0
IsPduChar c = (c ≢ 13) × (c ≢ 10) × (c ≢ b' ')

to_line_end-text : (pdu ends : List ℕ) → All IsPduChar pdu → to_line_end (pdu ++ 13 ∷ ends) ≡ pdu
unfolding to_line_end
to_line_end-text [] ends h = refl
to_line_end-text (c ∷ pdu) ends ((a, b, d), h) = ground (arith, a, b, to_line_end-text pdu ends h)

skip_line_ends-text :
    (pdu ends : List ℕ)
    → All IsPduChar pdu
    → 0 < length pdu
    → skip_line_ends (pdu ++ 13 ∷ ends) ≡ pdu ++ 13 ∷ ends
unfolding skip_line_ends
skip_line_ends-text [] ends h k = absurd (omega arith)
skip_line_ends-text (c ∷ pdu) ends ((a, b, d), h) k = ground (arith, a, b, d)

-- Where the modem answers with a line that starts with "+CMGR:" and a second one that is not empty, has no
-- space and is shorter than the array, exactly the second one is returned, whatever follows.
pub modem_read_sms_pdu-text :
    (reply : Reply) (max_len : ℕ) (info pdu ends : List ℕ)
    → reply.status ≡ none
    → reply.text ≡ ascii "+CMGR:" ++ (info ++ 10 ∷ (pdu ++ 13 ∷ ends))
    → All (λ c. c ≢ 10) info
    → All IsPduChar pdu
    → 0 < length pdu
    → length pdu < max_len
    → modem_read_sms_pdu reply max_len ≡ ok pdu
unfolding modem_read_sms_pdu find_str starts find_char
modem_read_sms_pdu-text reply max_len info pdu ends good line one chars some_text room =
    let wanted : (max_len == 0) ≡ false = ground (arith, room) in
    let first_line = find_char_first 10 info (pdu ++ 13 ∷ ends) one in
    let body : to_line_end (skip_line_ends (pdu ++ 13 ∷ ends)) ≡ pdu =
      ap to_line_end (skip_line_ends-text pdu ends chars some_text)
      ∙ to_line_end-text pdu ends chars in
    let fits : (length pdu == 0 || leb max_len (length pdu)) ≡ false =
      ground (arith, some_text, room) in
    rw (wanted, good, line, first_line, body, fits) refl
