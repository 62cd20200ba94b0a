-- ===== src/Pdu/Timestamp/RoundTrip.antt =====
-- `parse_timestamp` on decimal digits in semi-octets.
use esp32c3_sms_gateway.Prelude.{
  ℕ, ◌+◌, ◌*◌, ◌<◌, ◌≡◌, arith, List, [], ◌∷◌, drop, get_elem?-drop, get_elem?_at,
}
use esp32c3_sms_gateway.Prelude.Bits.{low_half, high_half}
use esp32c3_sms_gateway.Prelude.Result.{ok}
use esp32c3_sms_gateway.Pdu.Timestamp.{two_chars, format_timestamp, parse_timestamp}

-- Tens and units of one field of the date.
pub record TwoDigits : Type 0 where
  pub tens : ℕ
  pub units : ℕ

abbrev pub IsTwoDigits : TwoDigits → Type 0
IsTwoDigits t = (t.tens < 10) × (t.units < 10)

-- The digits are swapped in their byte.
abbrev pub swapped : TwoDigits → ℕ
swapped t = t.tens + 16 * t.units

abbrev pub decimals : TwoDigits → List ℕ → List ℕ
decimals t rest = (b'0' + t.tens) ∷ (b'0' + t.units) ∷ rest

pub record DateTime : Type 0 where
  pub year : TwoDigits
  pub month : TwoDigits
  pub day : TwoDigits
  pub hour : TwoDigits
  pub minute : TwoDigits
  pub second : TwoDigits

pub record IsDateTime (t : DateTime) : Type 0 where
  pub year_digits : IsTwoDigits t.year
  pub month_digits : IsTwoDigits t.month
  pub day_digits : IsTwoDigits t.day
  pub hour_digits : IsTwoDigits t.hour
  pub minute_digits : IsTwoDigits t.minute
  pub second_digits : IsTwoDigits t.second

-- The seven bytes of a time stamp, in front of `rest`.
unfoldable pub stamp : DateTime → ℕ → List ℕ → List ℕ
stamp t zone rest =
    swapped t.year
    ∷ swapped t.month
    ∷ swapped t.day
    ∷ swapped t.hour
    ∷ swapped t.minute
    ∷ swapped t.second
    ∷ zone
    ∷ rest

-- "20YY-MM-DD HH:MM:SS"
unfoldable pub date_text : DateTime → List ℕ
date_text t =
    b'2'
    ∷ b'0'
    ∷ decimals t.year (
        b'-'
        ∷ decimals t.month (
            b'-'
            ∷ decimals t.day
                (b' ' ∷ decimals t.hour (b':' ∷ decimals t.minute (b':' ∷ decimals t.second [])))))

two_chars-swapped :
    (t : TwoDigits) (rest : List ℕ) → IsTwoDigits t → two_chars (swapped t) rest ≡ decimals t rest
unfolding two_chars
two_chars-swapped t rest h =
    ground (arith, low_half (swapped t), high_half (swapped t) (omega arith))

format_timestamp-swapped :
    (t : DateTime)
    → IsDateTime t
    → format_timestamp
        (swapped t.year)
        (swapped t.month)
        (swapped t.day)
        (swapped t.hour)
        (swapped t.minute)
        (swapped t.second)
      ≡ date_text t
unfolding format_timestamp date_text
format_timestamp-swapped t h = rw (
  two_chars-swapped t.year _ h.year_digits,
  two_chars-swapped t.month _ h.month_digits,
  two_chars-swapped t.day _ h.day_digits,
  two_chars-swapped t.hour _ h.hour_digits,
  two_chars-swapped t.minute _ h.minute_digits,
  two_chars-swapped t.second _ h.second_digits,
)

pub parse_timestamp-stamp :
    (buf rest : List ℕ) (start zone : ℕ) (t : DateTime)
    → IsDateTime t
    → drop start buf ≡ stamp t zone rest
    → parse_timestamp buf start ≡ ok (date_text t, start + 7)
unfolding parse_timestamp stamp
parse_timestamp-stamp buf rest start zone t h e = ground (
  arith,
  get_elem?-drop start buf e,
  get_elem?_at start 1 buf e,
  get_elem?_at start 2 buf e,
  get_elem?_at start 3 buf e,
  get_elem?_at start 4 buf e,
  get_elem?_at start 5 buf e,
  get_elem?_at start 6 buf e,
  format_timestamp-swapped t h,
)
