-- ===== src/Pdu/Samples.antt =====
-- Concrete parts of messages for the tests.
use esp32c3_sms_gateway.Prelude.{ℕ, List, [], ◌∷◌, replicate}
use esp32c3_sms_gateway.Prelude.Text.{ascii}
use esp32c3_sms_gateway.Pdu.Timestamp.RoundTrip.{DateTime}
use esp32c3_sms_gateway.Pdu.Decode.Deliver.{Header}

abbrev pub stale : List ℕ
stale = replicate 256 0xa5

abbrev pub noon : DateTime
noon = record {
  year = record { tens = 2; units = 6 };
  month = record { tens = 0; units = 1 };
  day = record { tens = 3; units = 1 };
  hour = record { tens = 1; units = 2 };
  minute = record { tens = 0; units = 0 };
  second = record { tens = 5; units = 9 };
}

-- From +8613800138000 by way of one service centre byte; `kind` and `dcs` say what the user data is.
abbrev pub from_phone : ℕ → ℕ → Header
from_phone kind dcs = record {
  smsc = 0x91 ∷ [];
  type_byte = kind;
  type_of_address = 0x91;
  digit = 8;
  digits = 6 ∷ 1 ∷ 3 ∷ 8 ∷ 0 ∷ 0 ∷ 1 ∷ 3 ∷ 8 ∷ 0 ∷ 0 ∷ 0 ∷ [];
  pid = 0;
  dcs = dcs;
  sent = noon;
  zone = 0x23;
}

-- "hello" and its packed form.
abbrev pub hello : List ℕ
hello = ascii "hello"

abbrev pub hello_packed : List ℕ
hello_packed = 0x32 ∷ 0x9b ∷ 0xfd ∷ 0x06 ∷ []
