-- ===== src/Push/Encode.antt =====
-- `url_encode` and `json_escape` of push_service.c. Both loops append the code of a character at a
-- time and stop where the room for the longest code ends.
pub mod Prefix
pub mod Scan
use esp32c3_sms_gateway.Prelude.{
  ℕ, ◌+◌, ◌-◌, ◌/◌, ◌%◌, Bool, ◌&&◌, ◌||◌, List, [], ◌∷◌, ◌++◌, length, ltb, leb, ◌==◌,
  if◌then◌else◌,
}
use esp32c3_sms_gateway.Prelude.HexText.{hex_digit}
use esp32c3_sms_gateway.Prelude.Text.{is_digit}

-- `isalnum`
abbrev pub is_alnum : ℕ → Bool
is_alnum c = is_digit c || ((leb b'A' c && leb c b'Z') || (leb b'a' c && leb c b'z'))

-- What one round of `url_encode` appends.
unfoldable pub url_code : ℕ → List ℕ
unfolding hex_digit
url_code c =
    if is_alnum c || (c == b'-' || (c == b'_' || (c == b'.' || c == b'~')))
    then c ∷ []
    else if c == b' '
    then b'+' ∷ []
    else b'%' ∷ hex_digit (c / 16) ∷ hex_digit (c % 16) ∷ []

-- What one round of `json_escape` appends.
unfoldable pub json_code : ℕ → List ℕ
json_code c =
    if c == b'"'
    then b'\\' ∷ b'"' ∷ []
    else if c == b'\\'
    then b'\\' ∷ b'\\' ∷ []
    else if c == 10
    then b'\\' ∷ b'n' ∷ []
    else if c == 13
    then b'\\' ∷ b'r' ∷ []
    else if c == 9
    then b'\\' ∷ b't' ∷ []
    else c ∷ []

-- The loop, which goes on while `pos` is below `limit`.
unfoldable pub encode_loop : (ℕ → List ℕ) → ℕ → List ℕ → List ℕ → List ℕ
encode_loop code limit [] out = out
encode_loop code limit (c ∷ s) out =
    let rest = encode_loop code limit s (out ++ code c) in
    if ltb (length out) limit then rest else out

-- The callers pass arrays of 128 bytes and more, so `dest_len - 3` does not wrap around.
unfoldable pub url_encode : List ℕ → ℕ → List ℕ
url_encode src dest_len = encode_loop url_code (dest_len - 3) src []

unfoldable pub json_escape : List ℕ → ℕ → List ℕ
json_escape src dest_len = encode_loop json_code (dest_len - 2) src []
