-- ===== src/Push/Request/Json.antt =====
-- The JSON bodies, read by a reader of JSON objects with string members.
use esp32c3_sms_gateway.Prelude.{
  ℕ, zero, suc, ◌-◌, ◌*◌, ◌≤◌, ◌<◌, ◌≡◌, refl, ap, ◌∙◌, arith, false, Option, none, some, List, [],
  ◌∷◌, ◌++◌, length, length-append, take, take_all, All, ◌==◌, if◌then◌else◌,
}
use esp32c3_sms_gateway.Prelude.Text.{ascii}
use esp32c3_sms_gateway.Push.Encode.{json_code, json_escape}
use esp32c3_sms_gateway.Push.Encode.Prefix.{
  codes, length-codes, IsWritten-whole, encode_loop-IsWritten,
}
use esp32c3_sms_gateway.Push.Encode.Scan.{IsText, json_scan, json_scan-codes, length-json_code}
use esp32c3_sms_gateway.Push.Request.{Texts, escaped, json_body}

infixl 5 ◌>>=◌
abbrev ◌>>=◌ {ℓ κ} : {A : Type ℓ} {B : Type κ} → Option A → (A → Option B) → Option B
none >>= f = none
some a >>= f = f a

abbrev expect : ℕ → List ℕ → Option (List ℕ)
expect x [] = none
expect x (c ∷ s) = if c == x then some s else none

abbrev Members : Type 0
Members = List (List ℕ × List ℕ)

-- The members behind an opening brace or a comma, up to a brace at the end of the text.
unfoldable pub json_members : ℕ → List ℕ → Option Members
json_members zero s = none
json_members (suc fuel) s = do
  s1 ← expect b'"' s
  (name, s2) ← json_scan false s1
  s3 ← expect b':' s2
  s4 ← expect b'"' s3
  (value, s5) ← json_scan false s4
  elim s5 [
    | [] ↦ none
    | c ∷ rest ↦
        let later = json_members fuel rest in
        if c == b'}'
        then (if length rest == 0 then some ((name, value) ∷ []) else none)
        else if c == b','
        then (elim later [ none ↦ none | some ms ↦ some ((name, value) ∷ ms) ])
        else none
  ]

-- A JSON object whose members are strings.
unfoldable pub json_object : List ℕ → Option Members
json_object s = expect b'{' s >>= json_members (length s)

-- A text of at most `limit` characters of code is escaped as a whole and not cut.
escaped_whole :
    (src : List ℕ) (limit dest_len : ℕ)
    → 2 * length src ≤ limit
    → limit < dest_len
    → take limit (json_escape src dest_len) ≡ codes json_code src
unfolding json_escape
escaped_whole src limit dest_len short room =
    let written = encode_loop-IsWritten json_code (dest_len - 2) src [] in
    let count = IsWritten-whole json_code 2 dest_len src _ length-json_code (omega arith) written in
    let all : json_escape src dest_len ≡ codes json_code src =
      written.text
      ∙ ap (codes json_code)
          (ap (λ k. take k src) count ∙ take_all (length src) src (omega arith)) in
    rw all (
      take_all limit (codes json_code src)
        (omega (arith, length-codes json_code 2 src length-json_code)))

pub record IsMessageText (t : Texts) : Type 0 where
  pub sender_text : All IsText t.sender
  pub message_text : All IsText t.message
  pub timestamp_text : All IsText t.timestamp
  pub sender_fits : length t.sender ≤ 50
  pub message_fits : length t.message ≤ 500
  pub timestamp_fits : length t.timestamp ≤ 25

-- The body without limits.
unfoldable plain_json : Texts → List ℕ
plain_json t =
    ascii "{\"sender\":\""
    ++ (codes json_code t.sender
        ++ (ascii "\",\"message\":\""
            ++ (codes json_code t.message
                ++ (ascii "\",\"timestamp\":\"" ++ (codes json_code t.timestamp ++ ascii "\"}")))))

length-plain_json : (t : Texts) → IsMessageText t → length (plain_json t) ≤ 1535
unfolding plain_json
length-plain_json t h = simp length-append (
    omega (
      arith,
      h.sender_fits,
      h.message_fits,
      h.timestamp_fits,
      length-codes json_code 2 t.sender length-json_code,
      length-codes json_code 2 t.message length-json_code,
      length-codes json_code 2 t.timestamp length-json_code,
    ))

json_body_plain : (t : Texts) → IsMessageText t → json_body (escaped t) ≡ plain_json t
unfolding json_body plain_json
json_body_plain t h =
    rw
      (
        escaped_whole t.sender 100 128 (omega (arith, h.sender_fits)) (omega arith),
        escaped_whole t.message 1000 1024 (omega (arith, h.message_fits)) (omega arith),
        escaped_whole t.timestamp 50 64 (omega (arith, h.timestamp_fits)) (omega arith),
      )
      (take_all 1535 (plain_json t) (length-plain_json t h))

json_object-plain_json :
    (t : Texts)
    → IsMessageText t
    → json_object (plain_json t)
      ≡ some (
          (ascii "sender", t.sender)
          ∷ (ascii "message", t.message)
          ∷ (ascii "timestamp", t.timestamp)
          ∷ [])
unfolding json_object json_members plain_json json_scan
json_object-plain_json t h =
    rw
      (
        json_scan-codes t.sender _ h.sender_text,
        json_scan-codes t.message _ h.message_text,
        json_scan-codes t.timestamp _ h.timestamp_text,
      )
      refl

-- For texts without control characters but tabs and line ends, with a sender of at most 50, a
-- message of at most 500 and a time stamp of at most 25 bytes, the body for a JSON channel is a
-- JSON object with exactly these three texts.
pub json_object-json_body :
    (t : Texts)
    → IsMessageText t
    → json_object (json_body (escaped t))
      ≡ some (
          (ascii "sender", t.sender)
          ∷ (ascii "message", t.message)
          ∷ (ascii "timestamp", t.timestamp)
          ∷ [])
json_object-json_body t h = ap json_object (json_body_plain t h) ∙ json_object-plain_json t h
