-- ===== src/Pdu/Timestamp.antt =====
-- `parse_timestamp` of pdu_decoder.c: seven swapped semi-octet bytes.
pub mod RoundTrip
use esp32c3_sms_gateway.Prelude.{ℕ, ◌+◌, List, [], ◌∷◌}
use esp32c3_sms_gateway.Prelude.Result.{Result, ok, read, ◌>>=◌}
use esp32c3_sms_gateway.Pdu.Address.{low_nibble, high_nibble}

-- `raw[2i]` and `raw[2i + 1]` in front of what follows.
unfoldable pub two_chars : ℕ → List ℕ → List ℕ
two_chars b rest = (b'0' + low_nibble b) ∷ (b'0' + high_nibble b) ∷ rest

-- "20YY-MM-DD HH:MM:SS". The seventh byte, the time zone, is read and not printed.
unfoldable pub format_timestamp : ℕ → ℕ → ℕ → ℕ → ℕ → ℕ → List ℕ
format_timestamp year month day hour minute second =
    b'2'
    ∷ b'0'
    ∷ two_chars year (
        b'-'
        ∷ two_chars month (
            b'-'
            ∷ two_chars day
                (b' ' ∷ two_chars hour (b':' ∷ two_chars minute (b':' ∷ two_chars second [])))))

unfoldable pub parse_timestamp : List ℕ → ℕ → Result (List ℕ × ℕ)
parse_timestamp buf start_idx = do
  year ← read buf start_idx
  month ← read buf (start_idx + 1)
  day ← read buf (start_idx + 2)
  hour ← read buf (start_idx + 3)
  minute ← read buf (start_idx + 4)
  second ← read buf (start_idx + 5)
  zone ← read buf (start_idx + 6)
  ok (format_timestamp year month day hour minute second, start_idx + 7)
