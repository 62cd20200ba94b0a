-- ===== src/Esim/Apdu.antt =====
-- `transmit_apdu` of esim_manager.c: a command of the card as text, and the bytes of its answer.
pub mod Reading
use esp32c3_sms_gateway.Prelude.{
  ℕ, ◌-◌, ◌*◌, ◌/◌, ◌%◌, Bool, true, false, ◌||◌, not, Option, none, some, List, [], ◌∷◌, ◌++◌,
  length, take, drop, ◌==◌, if◌then◌else◌,
}
use esp32c3_sms_gateway.Prelude.Result.{fail, Result, ok, err}
use esp32c3_sms_gateway.Prelude.Text.{ascii, find_str, find_char, decimal}
use esp32c3_sms_gateway.Esim.Profile.{is_hex_char, hex_to_bytes}
use esp32c3_sms_gateway.Modem.Dialogue.{Reply, Io, ◌>>=◌, pure, send}
use esp32c3_sms_gateway.Esim.Channel.{bytes_to_hex}

unfoldable pub cgla_cmd : List ℕ → List ℕ → List ℕ
cgla_cmd channel tx = take 599 (
    ascii "AT+CGLA="
    ++ (channel
        ++ (ascii ","
            ++ (decimal (length tx * 2) ++ (ascii ",\"" ++ (bytes_to_hex tx 512 ++ ascii "\""))))))

unfoldable pub hex_chars : List ℕ → List ℕ
hex_chars [] = []
hex_chars (c ∷ s) = if is_hex_char c then c ∷ hex_chars s else hex_chars s

-- Where the hexadecimal text of the answer starts.
unfoldable pub hex_start : List ℕ → List ℕ
hex_start resp =
    let p : List ℕ = elim (find_str (ascii "+CGLA:") resp) [ none ↦ resp | some at ↦ drop 6 at ] in
    elim (find_char b',' p) [ none ↦ p | some comma ↦ drop 1 comma ]

-- The bytes of the answer; whatever is no hexadecimal digit is passed over.
unfoldable pub answer_bytes : List ℕ → Result (List ℕ)
unfolding hex_start hex_chars
answer_bytes resp =
    let clean_hex = hex_chars (hex_start resp) in
    if length clean_hex == 0 || not (length clean_hex % 2 == 0)
    then err fail
    else ok (hex_to_bytes clean_hex (length clean_hex / 2))

unfoldable pub transmit_apdu : List ℕ → List ℕ → Io (List ℕ)
transmit_apdu channel tx = do
  r ← send (cgla_cmd channel tx)
  pure (elim r.status [ none ↦ answer_bytes r.text | some e ↦ err e ])
