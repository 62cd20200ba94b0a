-- ===== src/Pdu/Decode/Deliver.antt =====
-- `pdu_decode` against a reference encoder of SMS-DELIVER.
use esp32c3_sms_gateway.Prelude.{
  ℕ, suc, ◌+◌, ◌<◌, ◌≡◌, refl, arith, bit_and, Bool, not, List, ◌∷◌, ◌++◌, length, length-append,
  take, drop, drop-length, drop_add_eq, drop-suc, All, some, get_elem?, get_elem?-drop,
  get_elem?_at, ◌==◌,
}
use esp32c3_sms_gateway.Pdu.Address.RoundTrip.{
  semi_octets, IsDigit, digit_chars, prefix_of, parse_phone_number-semi_octets,
}
use esp32c3_sms_gateway.Pdu.Timestamp.RoundTrip.{
  DateTime, IsDateTime, stamp, date_text, parse_timestamp-stamp,
}
use esp32c3_sms_gateway.Pdu.Decode.{encoding_type, decode_user_data, decode_buffer}
use mathlib.Core.List.{append_assoc}
use native.Mathlib.Nat.{suc-add, zero-add}
use native.Mathlib.Numerals.{add-one, add-two}

-- The fields of an SMS-DELIVER in front of the user data; `digit ∷ digits` is the sender's number.
pub record Header : Type 0 where
  pub smsc : List ℕ
  pub type_byte : ℕ
  pub type_of_address : ℕ
  pub digit : ℕ
  pub digits : List ℕ
  pub pid : ℕ
  pub dcs : ℕ
  pub sent : DateTime
  pub zone : ℕ

pub record IsHeader (m : Header) : Type 0 where
  pub number : All IsDigit (m.digit ∷ m.digits)
  pub date : IsDateTime m.sent

abbrev pub number_of : Header → List ℕ
number_of m = m.digit ∷ m.digits

-- The bytes behind the type byte, in front of `rest`.
unfoldable pub address_on : Header → List ℕ → List ℕ
address_on m rest =
    length (number_of m) ∷ m.type_of_address ∷ semi_octets (number_of m)
    ++ (m.pid ∷ m.dcs ∷ stamp m.sent m.zone rest)

-- All bytes in front of the user data length.
unfoldable pub header : Header → List ℕ → List ℕ
header m rest = length m.smsc ∷ m.smsc ++ (m.type_byte ∷ address_on m rest)

abbrev pub header_len : Header → ℕ
header_len m = 13 + length m.smsc + length (semi_octets (number_of m))

abbrev pub sender_text : Header → List ℕ
sender_text m = take 19 (prefix_of m.type_of_address ++ digit_chars (number_of m))

abbrev pub has_udh : Header → Bool
has_udh m = not (bit_and m.type_byte 0x40 == 0)

module _ (m : Header) (rest : List ℕ) where
  abbrev type_at : ℕ
  type_at = 1 + length m.smsc

  abbrev pid_at : ℕ
  pid_at = type_at + 1 + 2 + length (semi_octets (number_of m))

  first_byte : get_elem? (header m rest) 0 ≡ some (length m.smsc)
  unfolding header
  first_byte = refl

  at_type : drop type_at (header m rest) ≡ m.type_byte ∷ address_on m rest
  unfolding header
  at_type = rw (suc-add, zero-add) (drop-length m.smsc _)

  at_address : drop (type_at + 1) (header m rest) ≡ address_on m rest
  at_address = rw add-one (drop-suc type_at (header m rest) at_type)

  at_pid : drop pid_at (header m rest) ≡ m.pid ∷ m.dcs ∷ stamp m.sent m.zone rest
  unfolding address_on
  at_pid =
      drop_add_eq (type_at + 1 + 2) (length (semi_octets (number_of m))) (header m rest)
        (drop_add_eq (type_at + 1) 2 (header m rest) at_address refl)
        (drop-length (semi_octets (number_of m)) _)

  at_stamp : drop (pid_at + 2) (header m rest) ≡ stamp m.sent m.zone rest
  at_stamp =
      rw add-two (drop-suc (suc pid_at) (header m rest) (drop-suc pid_at (header m rest) at_pid))

  user_data_at : header_len m ≡ pid_at + 2 + 7
  user_data_at = omega arith

  pub at_user_data : drop (header_len m) (header m rest) ≡ rest
  at_user_data =
      rw user_data_at (drop_add_eq (pid_at + 2) 7 (header m rest) at_stamp (unfold stamp in refl))

  -- On a well-formed header the decoder reaches the user data with the fields of the header.
  pub decode_buffer-header :
      (buf_len : ℕ)
      → IsHeader m
      → header_len m < buf_len
      → decode_buffer (header m rest) buf_len
        ≡ decode_user_data
            (header m rest)
            buf_len
            (header_len m)
            (has_udh m)
            (encoding_type m.dcs)
            (sender_text m)
            (date_text m.sent)
  unfolding decode_buffer
  decode_buffer-header buf_len h fits = ground (
    arith,
    first_byte,
    get_elem?-drop type_at (header m rest) at_type,
    parse_phone_number-semi_octets (header m rest) (m.pid ∷ m.dcs ∷ stamp m.sent m.zone rest)
        (type_at + 1) m.type_of_address m.digit m.digits h.number (unfold address_on in at_address),
    get_elem?-drop pid_at (header m rest) at_pid,
    get_elem?_at pid_at 1 (header m rest) at_pid,
    parse_timestamp-stamp (header m rest) rest (pid_at + 2) m.zone m.sent h.date at_stamp,
    user_data_at,
  )

module _ (m : Header) where
  pub header-append : (xs ys : List ℕ) → header m xs ++ ys ≡ header m (xs ++ ys)
  unfolding header address_on stamp
  header-append xs ys = simp append_assoc

  pub length-header : (xs : List ℕ) → length (header m xs) ≡ header_len m + length xs
  unfolding header address_on stamp
  length-header xs = simp length-append (omega arith)

  pub header_first :
      (xs : List ℕ) → header m xs ≡ length m.smsc ∷ m.smsc ++ (m.type_byte ∷ address_on m xs)
  unfolding header
  header_first xs = refl
