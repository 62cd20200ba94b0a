-- ===== src/Esim/Channel.antt =====
-- `open_channel`, `close_channel` and `class_byte_for_channel` of esim_manager.c. `atoi` is the C
-- library's, with 0 for a number that is not positive; `set_error` only keeps a text for messages.
pub mod Opening
use esp32c3_sms_gateway.Prelude.{
  ℕ, zero, suc, ◌+◌, ◌-◌, ◌/◌, ◌%◌, bit_or, Bool, true, false, ◌&&◌, ◌||◌, Option, none, some, List,
  [], ◌∷◌, ◌++◌, length, drop, ltb, leb, ◌==◌, if◌then◌else◌,
}
use esp32c3_sms_gateway.Prelude.Result.{EspErr, fail, Result, ok, err}
use esp32c3_sms_gateway.Prelude.Text.{ascii, find_str, decimal}
use esp32c3_sms_gateway.Prelude.HexText.{hex_digit}
use esp32c3_sms_gateway.Modem.Dialogue.{Reply, Modem, Io, ◌>>=◌, pure, send}

-- `bytes_to_hex` into an array of `out_size` bytes.
unfoldable pub bytes_to_hex : List ℕ → ℕ → List ℕ
unfolding hex_digit
bytes_to_hex [] out_size = []
bytes_to_hex (b ∷ bytes) out_size =
    let rest = bytes_to_hex bytes (out_size - 2) in
    if ltb 2 out_size then hex_digit (b / 16) ∷ hex_digit (b % 16) ∷ rest else []

abbrev pub isd_r_aid : List ℕ
isd_r_aid =
    0xa0 ∷ 0x00 ∷ 0x00 ∷ 0x05 ∷ 0x59 ∷ 0x10 ∷ 0x10 ∷ 0xff ∷ 0xff ∷ 0xff ∷ 0xff ∷ 0x89 ∷ 0x00 ∷ 0x00
    ∷ 0x01 ∷ 0x00 ∷ []

abbrev pub alt_aids : List (List ℕ)
alt_aids =
    ascii "A0000001514149530000000000000000"
    ∷ ascii "A0000005591010FFFFFFFF8900000000"
    ∷ ascii "A0000005591010FFFFFFFF8900000101"
    ∷ []

abbrev pub open_cmd : List ℕ → List ℕ
open_cmd aid = ascii "AT+CCHO=\"" ++ (aid ++ ascii "\"")

abbrev pub close_cmd : List ℕ → List ℕ
close_cmd channel = ascii "AT+CCHC=" ++ channel

abbrev pub says : List ℕ → List ℕ → Bool
says needle s = elim (find_str needle s) [ none ↦ false | some p ↦ true ]

unfoldable pub skip_space : List ℕ → List ℕ
skip_space [] = []
skip_space (c ∷ s) =
    let rest = skip_space s in if c == b' ' || (c == 13 || (c == 10 || c == 9)) then rest else c ∷ s

-- The text from the first digit other than 0 on.
unfoldable pub first_number : List ℕ → Option (List ℕ)
first_number [] = none
first_number (c ∷ s) =
    let later = first_number s in if leb b'1' c && leb c b'9' then some (c ∷ s) else later

-- The check of the number, and the text of the channel.
abbrev pub checked_channel : ℕ → Result (List ℕ)
checked_channel ch = if ch == 0 || ltb 20 ch then err fail else ok (decimal ch)

-- The channels from `i` on, `more` of them, are closed.
unfoldable pub close_all : ℕ → ℕ → Io (Unit {0})
close_all zero i = pure (ok tt)
close_all (suc more) i = do r ← send (close_cmd (decimal i)); close_all more (i + 1)

module _ (atoi : List ℕ → ℕ) where
  -- The number behind `parse_channel`.
  unfoldable pub parse_channel : List ℕ → ℕ
  unfolding skip_space first_number find_str
  parse_channel resp = elim (find_str (ascii "+CCHO:") resp) [
    | some p ↦ atoi (skip_space (drop 6 p))
    | none ↦ elim (first_number resp) [ none ↦ 0 | some p ↦ atoi p ]
  ]

  -- A reply that is good gives the channel.
  abbrev pub accepted_or : Option EspErr → List ℕ → Io (List ℕ) → Io (List ℕ)
  accepted_or none resp otherwise = pure (checked_channel (parse_channel resp))
  accepted_or (some e) resp otherwise = otherwise

  -- The other AIDs, until one is accepted.
  unfoldable pub open_alternative : List (List ℕ) → Io (List ℕ)
  open_alternative [] = pure (err fail)
  open_alternative (aid ∷ aids) = do
    r ← send (open_cmd aid)
    accepted_or r.status r.text (open_alternative aids)

  unfoldable pub open_channel : Io (List ℕ)
  open_channel = do
    let cmd = open_cmd (bytes_to_hex isd_r_aid 64)
    r ← send cmd
    accepted_or r.status r.text (
        if says (ascii "ERROR: 20") r.text || says (ascii "CME ERROR") r.text
        then (do
          u ← close_all 8 1
          again ← send cmd
          accepted_or again.status again.text (open_alternative alt_aids))
        else open_alternative alt_aids)

  -- Channel numbers above 19 get the class byte of channel 0.
  unfoldable pub class_byte_for_channel : List ℕ → ℕ
  class_byte_for_channel channel =
      let ch = atoi channel in
      if ch == 0 || ltb 19 ch
      then 0x80
      else if ltb ch 4
      then bit_or 0x80 ch
      else bit_or (bit_or 0x80 0x40) (ch - 4)

unfoldable pub close_channel : List ℕ → Io (Unit {0})
close_channel channel =
    if length channel == 0 then pure (ok tt) else (send (close_cmd channel) >>= λ r. pure (ok tt))
