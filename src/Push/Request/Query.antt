-- ===== src/Push/Request/Query.antt =====
-- The address of a GET channel, read by a reader of form-encoded queries.
use esp32c3_sms_gateway.Prelude.{
  ℕ, ◌-◌, ◌*◌, ◌≤◌, ◌<◌, ◌≡◌, ◌≢◌, refl, ap, ◌∙◌, arith, true, Option, none, some, List, [], ◌∷◌,
  ◌++◌, map, length, take, take_all, All, All-append, ltb, ◌==◌, if◌then◌else◌,
}
use esp32c3_sms_gateway.Prelude.HexText.{hex_digit, IsByte}
use esp32c3_sms_gateway.Prelude.Text.{ascii, find_char}
use esp32c3_sms_gateway.Push.Encode.{url_code, url_encode}
use esp32c3_sms_gateway.Push.Encode.Prefix.{codes, IsWritten-whole, encode_loop-IsWritten}
use esp32c3_sms_gateway.Push.Encode.Scan.{plain, url_scan, length-url_code, url_scan-codes}
use esp32c3_sms_gateway.Push.Request.{Texts, full_query, get_url}

-- The characters in front of the first `c`, and those behind it.
unfoldable pub before : ℕ → List ℕ → List ℕ
before c [] = []
before c (x ∷ s) = let rest = before c s in if x == c then [] else x ∷ rest

unfoldable pub after : ℕ → List ℕ → List ℕ
after c [] = []
after c (x ∷ s) = let rest = after c s in if x == c then s else rest

abbrev pub Avoids : ℕ → List ℕ → Type 0
Avoids c = All (λ x. x ≢ c)

after-append : (c : ℕ) (xs ys : List ℕ) → Avoids c xs → after c (xs ++ c ∷ ys) ≡ ys
unfolding after
after-append c [] ys h = ground arith
after-append c (x ∷ xs) ys h = ground (arith, h.0, after-append c xs ys h.1)

-- A member `name=value`, both decoded.
abbrev pub Member : Type 0
Member = Option (List ℕ) × Option (List ℕ)

abbrev form_member : List ℕ → Member
form_member s = (url_scan plain (before b'=' s), url_scan plain (after b'=' s))

abbrev push_front : ℕ → List (List ℕ) → List (List ℕ)
push_front x [] = (x ∷ []) ∷ []
push_front x (w ∷ ws) = (x ∷ w) ∷ ws

-- All parts of a text that `c` separates.
unfoldable split : ℕ → List ℕ → List (List ℕ)
split c [] = [] ∷ []
split c (x ∷ s) = let rest = split c s in if x == c then [] ∷ rest else push_front x rest

-- All members of a query, separated by ampersands.
unfoldable pub form_members : List ℕ → List Member
unfolding split
form_members s = map form_member (split b'&' s)

split-append : (c : ℕ) (xs ys : List ℕ) → Avoids c xs → split c (xs ++ c ∷ ys) ≡ xs ∷ split c ys
unfolding split
split-append c [] ys h = ground arith
split-append c (x ∷ xs) ys h = ground (arith, h.0, split-append c xs ys h.1)

split-all : (c : ℕ) (xs : List ℕ) → Avoids c xs → split c xs ≡ xs ∷ []
unfolding split
split-all c [] h = refl
split-all c (x ∷ xs) h = ground (arith, h.0, split-all c xs h.1)

url_code-Avoids : (c : ℕ) → Avoids b'&' (url_code c)
unfolding url_code hex_digit
url_code-Avoids c = ground arith

codes-Avoids : (s : List ℕ) → Avoids b'&' (codes url_code s)
unfolding codes
codes-Avoids [] = tt
codes-Avoids (c ∷ s) =
    All-append (λ x. x ≢ b'&') (url_code c) (codes url_code s) (url_code-Avoids c) (codes-Avoids s)

-- A text that an array takes as a whole.
encoded_whole :
    (src : List ℕ) (dest_len : ℕ)
    → 3 * length src < dest_len
    → url_encode src dest_len ≡ codes url_code src
unfolding url_encode
encoded_whole src dest_len enough =
    let written = encode_loop-IsWritten url_code (dest_len - 3) src [] in
    let count = IsWritten-whole url_code 3 dest_len src _ length-url_code enough written in
    written.text
    ∙ ap (codes url_code) (ap (λ k. take k src) count ∙ take_all (length src) src (omega arith))

pub record IsQueryText (t : Texts) : Type 0 where
  pub sender_bytes : All IsByte t.sender
  pub message_bytes : All IsByte t.message
  pub timestamp_bytes : All IsByte t.timestamp
  pub sender_fits : length t.sender ≤ 42
  pub message_fits : length t.message ≤ 511
  pub timestamp_fits : length t.timestamp ≤ 42

three_members :
    (a b c : List ℕ)
    → Avoids b'&' a
    → Avoids b'&' b
    → Avoids b'&' c
    → form_members
        (ascii "sender=" ++ (a ++ (ascii "&message=" ++ (b ++ (ascii "&timestamp=" ++ c)))))
      ≡ (some (ascii "sender"), url_scan plain a)
        ∷ (some (ascii "message"), url_scan plain b)
        ∷ (some (ascii "timestamp"), url_scan plain c)
        ∷ []
unfolding form_members split before after url_scan
three_members a b c ha hb hc =
    rw
      (
        split-append b'&' a (ascii "message=" ++ (b ++ (ascii "&timestamp=" ++ c))) ha,
        split-append b'&' b (ascii "timestamp=" ++ c) hb,
        split-all b'&' c hc,
      )
      refl

find_char-none : (c : ℕ) (xs : List ℕ) → Avoids c xs → find_char c xs ≡ none
unfolding find_char
find_char-none c [] h = refl
find_char-none c (x ∷ xs) h = ground (arith, h.0, find_char-none c xs h.1)

-- For bytes that fit in the arrays and an address without a query, where the whole address fits, the
-- query of the address that is requested has exactly three members, the three texts under their
-- names.
pub form_members-get_url :
    (url : List ℕ) (t : Texts)
    → Avoids b'?' url
    → IsQueryText t
    → length (full_query url t) < 1536
    → form_members (after b'?' (get_url url t))
      ≡ (some (ascii "sender"), some t.sender)
        ∷ (some (ascii "message"), some t.message)
        ∷ (some (ascii "timestamp"), some t.timestamp)
        ∷ []
unfolding get_url full_query
form_members-get_url url t bare h fits =
    let fits_test : ltb (length (full_query url t)) 1536 ≡ true = ground (arith, fits) in
    let query = codes url_code t.sender in
    rw
      (
        fits_test,
        find_char-none b'?' url bare,
        after-append b'?' url _ bare,
        encoded_whole t.sender 128 (omega (arith, h.sender_fits)),
        encoded_whole t.message 1536 (omega (arith, h.message_fits)),
        encoded_whole t.timestamp 128 (omega (arith, h.timestamp_fits)),
        three_members (codes url_code t.sender) (codes url_code t.message)
            (codes url_code t.timestamp) (codes-Avoids t.sender) (codes-Avoids t.message)
            (codes-Avoids t.timestamp),
        url_scan-codes t.sender h.sender_bytes,
        url_scan-codes t.message h.message_bytes,
        url_scan-codes t.timestamp h.timestamp_bytes,
      )
      refl
