-- ===== src/Push/Encode/Scan.antt =====
-- Readers of form-encoded text and of JSON strings, and what they read of the encoded texts.
use esp32c3_sms_gateway.Prelude.{
  ℕ, zero, suc, ◌+◌, ◌-◌, ◌*◌, ◌/◌, ◌%◌, ◌≤◌, ◌<◌, ◌≡◌, ◌⊎◌, refl, ap, ◌∙◌, arith, Bool, true,
  false, ◌||◌, Option, none, some, List, [], ◌∷◌, ◌++◌, length, take, All, ltb, ◌==◌, if◌then◌else◌,
}
use esp32c3_sms_gateway.Prelude.HexText.{IsByte}
use esp32c3_sms_gateway.Pdu.Hex.{hex_char_to_int}
use esp32c3_sms_gateway.Pdu.Hex.RoundTrip.{hex_char_to_int-hex_digit}
use esp32c3_sms_gateway.Push.Encode.{url_code, url_encode, json_code, json_escape}
use esp32c3_sms_gateway.Push.Encode.Prefix.{
  codes, encode_loop-IsWritten, length-encode_loop, IsWritten-whole,
}
use mathlib.Core.List.{append_assoc}

-- What a reader of form-encoded text has seen of an escape.
pub data Pending : Type 0 where
  plain after_percent : Pending
  after_digit : ℕ → Pending

abbrev cons_to : ℕ → Option (List ℕ) → Option (List ℕ)
cons_to c none = none
cons_to c (some s) = some (c ∷ s)

-- A reader of application/x-www-form-urlencoded text.
unfoldable pub url_scan : Pending → List ℕ → Option (List ℕ)
url_scan plain [] = some []
url_scan after_percent [] = none
url_scan (after_digit h) [] = none
url_scan plain (c ∷ s) =
    let escape = url_scan after_percent s in
    let rest = url_scan plain s in
    if c == b'%' then escape else if c == b'+' then cons_to b' ' rest else cons_to c rest
url_scan after_percent (c ∷ s) = elim (hex_char_to_int c) [
  | none ↦ none
  | some h ↦ url_scan (after_digit h) s
]
url_scan (after_digit h) (c ∷ s) = elim (hex_char_to_int c) [
  | none ↦ none
  | some l ↦ cons_to (h * 16 + l) (url_scan plain s)
]

url_scan-url_code :
    (c : ℕ) (s : List ℕ)
    → IsByte c
    → url_scan plain (url_code c ++ s) ≡ cons_to c (url_scan plain s)
unfolding url_scan url_code
url_scan-url_code c s small =
    ground (arith, hex_char_to_int-hex_digit (c / 16), hex_char_to_int-hex_digit (c % 16))

pub url_scan-codes : (s : List ℕ) → All IsByte s → url_scan plain (codes url_code s) ≡ some s
unfolding codes url_scan
url_scan-codes [] h = refl
url_scan-codes (c ∷ s) h =
    rw (url_scan-url_code c (codes url_code s) h.0, url_scan-codes s h.1) refl

take-All : (P : ℕ → Type 0) (n : ℕ) (s : List ℕ) → All P s → All P (take n s)
take-All P zero s h = tt
take-All P (suc n) [] h = tt
take-All P (suc n) (c ∷ s) h = (h.0, take-All P n s h.1)

pub length-url_code : (c : ℕ) → length (url_code c) ≤ 3
unfolding url_code
length-url_code c = ground arith

pub length-json_code : (c : ℕ) → length (json_code c) ≤ 2
unfolding json_code
length-json_code c = ground arith

-- What an encoded text holds: the array has room for it with its terminator, and a reader of the
-- format reads the first `count` characters, all of them if the array is large enough.
pub record IsEncoded (read_back : List ℕ → Option (List ℕ)) (src : List ℕ) (dest_len widest : ℕ)
    (encoded : List ℕ) : Type 0 where
  pub fits : length encoded < dest_len
  pub count : ℕ
  pub back : read_back encoded ≡ some (take count src)
  pub whole : widest * length src < dest_len → count ≡ length src

-- For bytes and an array of more than 3 bytes, `url_encode` stays inside the array, and a reader of
-- form-encoded text gives back a prefix of the text: all of it if the array has three bytes for
-- each character and one for the terminator.
pub url_encode-IsEncoded :
    (src : List ℕ) (dest_len : ℕ)
    → All IsByte src
    → 3 < dest_len
    → IsEncoded (url_scan plain) src dest_len 3 (url_encode src dest_len)
unfolding url_encode
url_encode-IsEncoded src dest_len small room =
    let written = encode_loop-IsWritten url_code (dest_len - 3) src [] in
    record {
      fits = omega (
        arith,
        length-encode_loop url_code (dest_len - 3) 3 src [] length-url_code (omega arith),
      );
      count = written.count;
      back =
          ap (url_scan plain) written.text
          ∙ url_scan-codes (take written.count src) (take-All IsByte written.count src small);
      whole = λ enough. IsWritten-whole url_code 3 dest_len src _ length-url_code enough written;
    }

-- A reader of the rest of a JSON string, up to its closing quote: the string and what follows.
-- Control characters must be escaped; `true` is a backslash just read.
abbrev first_to : ℕ → Option (List ℕ × List ℕ) → Option (List ℕ × List ℕ)
first_to c none = none
first_to c (some (s, rest)) = some (c ∷ s, rest)

unfoldable pub json_scan : Bool → List ℕ → Option (List ℕ × List ℕ)
json_scan pending [] = none
json_scan false (c ∷ s) =
    let escape = json_scan true s in
    let rest = json_scan false s in
    if c == b'"'
    then some ([], s)
    else if c == b'\\'
    then escape
    else if ltb c 32
    then none
    else first_to c rest
json_scan true (c ∷ s) =
    let rest = json_scan false s in
    if c == b'"' || c == b'\\'
    then first_to c rest
    else if c == b'n'
    then first_to 10 rest
    else if c == b'r'
    then first_to 13 rest
    else if c == b't'
    then first_to 9 rest
    else none

-- A character that JSON allows in a string once `json_code` has coded it.
abbrev pub IsText : ℕ → Type 0
IsText c = (32 ≤ c) ⊎ ((c ≡ 10) ⊎ ((c ≡ 13) ⊎ (c ≡ 9)))

json_scan-json_code :
    (c : ℕ) (s : List ℕ)
    → IsText c
    → json_scan false (json_code c ++ s) ≡ first_to c (json_scan false s)
unfolding json_scan json_code
json_scan-json_code c s h = ground arith

pub json_scan-codes :
    (s rest : List ℕ)
    → All IsText s
    → json_scan false (codes json_code s ++ b'"' ∷ rest) ≡ some (s, rest)
unfolding codes json_scan
json_scan-codes [] rest h = refl
json_scan-codes (c ∷ s) rest h =
    rw
      (
        append_assoc (json_code c) (codes json_code s) (b'"' ∷ rest),
        json_scan-json_code c (codes json_code s ++ b'"' ∷ rest) h.0,
        json_scan-codes s rest h.1,
      )
      refl

-- The reader of a whole string, its closing quote put behind it.
unfoldable pub json_string : List ℕ → Option (List ℕ)
json_string s = elim (json_scan false (s ++ b'"' ∷ [])) [
  | none ↦ none
  | some (text, rest) ↦ some text
]

-- For text without other control characters than tabs and line ends, and an array of more than 2
-- bytes, `json_escape` stays inside the array, and what it writes is the inside of a JSON string
-- that reads as a prefix of the text: all of it if the array has two bytes for each character and
-- one for the terminator.
pub json_escape-IsEncoded :
    (src : List ℕ) (dest_len : ℕ)
    → All IsText src
    → 2 < dest_len
    → IsEncoded json_string src dest_len 2 (json_escape src dest_len)
unfolding json_escape json_string
json_escape-IsEncoded src dest_len text room =
    let written = encode_loop-IsWritten json_code (dest_len - 2) src [] in
    record {
      fits = omega (
        arith,
        length-encode_loop json_code (dest_len - 2) 2 src [] length-json_code (omega arith),
      );
      count = written.count;
      back =
          ap json_string written.text
          ∙ rw
              (
                json_scan-codes (take written.count src) []
                    (take-All IsText written.count src text),
                json_string,
              )
              refl;
      whole = λ enough. IsWritten-whole json_code 2 dest_len src _ length-json_code enough written;
    }
