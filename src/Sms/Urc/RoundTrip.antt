-- ===== src/Sms/Urc/RoundTrip.antt =====
-- The PDU of a direct notification, from the modem's lines to the event.
use esp32c3_sms_gateway.Prelude.{
  ℕ, zero, suc, ◌+◌, ◌≤◌, ◌<◌, ◌≡◌, ◌≢◌, refl, ◌∙◌, arith, true, false, none, some, List, [], ◌∷◌,
  ◌++◌, length, length-append, drop-length, take-length, drop, ltb, get_elem?, get_elem?_at, All,
}
use esp32c3_sms_gateway.Prelude.Text.{ascii, find_str, find_char_first}
use esp32c3_sms_gateway.Sms.Urc.{direct_event, is_line_end, trimmed_len, direct_line, urc_event}
use mathlib.Core.List.{append_assoc}
use native.Mathlib.Nat.{add-zero, add-suc}

abbrev pub IsLineEnd : ℕ → Type 0
IsLineEnd c = is_line_end c ≡ true

abbrev pub IsInLine : ℕ → Type 0
IsInLine c = is_line_end c ≡ false

All_at {ℓ} :
    {A : Type ℓ} (P : A → Type 0) (xs : List A) (i : ℕ)
    → All P xs
    → i < length xs
    → (x : A) × (get_elem? xs i ≡ some x) × P x
All_at P [] i h lt = absurd (omega arith)
All_at P (x ∷ xs) zero h lt = (x, refl, h.0)
All_at P (x ∷ xs) (suc i) h lt = All_at P xs i h.1 (omega arith)

get_elem?-append {ℓ} :
    {A : Type ℓ} (xs ys : List A) (i : ℕ) {x : A}
    → get_elem? xs i ≡ some x
    → get_elem? (xs ++ ys) i ≡ some x
get_elem?-append [] ys i e = cc
get_elem?-append (y ∷ xs) ys zero e = e
get_elem?-append (y ∷ xs) ys (suc i) e = get_elem?-append xs ys i e

-- The loop goes on at a line end and stops at any other character.
trimmed_len_on :
    (text : List ℕ) (n c : ℕ)
    → get_elem? text n ≡ some c
    → IsLineEnd c
    → trimmed_len text (suc n) ≡ trimmed_len text n
unfolding trimmed_len
trimmed_len_on text n c e end = rw (e, end, trimmed_len) refl

trimmed_len_stop :
    (text : List ℕ) (n c : ℕ)
    → get_elem? text n ≡ some c
    → IsInLine c
    → trimmed_len text (suc n) ≡ suc n
unfolding trimmed_len
trimmed_len_stop text n c e inside = rw (e, inside, trimmed_len) refl

trimmed_len-ends :
    (xs ends : List ℕ) (k : ℕ)
    → k ≤ length ends
    → All IsLineEnd ends
    → trimmed_len (xs ++ ends) (length xs + k) ≡ trimmed_len (xs ++ ends) (length xs)
trimmed_len-ends xs ends zero le h = rw add-zero refl
trimmed_len-ends xs ends (suc k) le h =
    let (c, e, end) = All_at IsLineEnd ends k h (omega arith) in
    let here = get_elem?_at (length xs) k (xs ++ ends) (drop-length xs ends) ∙ e in
    rw add-suc (
      trimmed_len_on (xs ++ ends) (length xs + k) c here end
      ∙ trimmed_len-ends xs ends k (omega arith) h)

trimmed_len_full :
    (front hex ends : List ℕ)
    → All IsInLine hex
    → 0 < length hex
    → trimmed_len ((front ++ hex) ++ ends) (length (front ++ hex)) ≡ length (front ++ hex)
trimmed_len_full front [] ends h some_text = absurd (omega arith)
trimmed_len_full front (x ∷ hs) ends h some_text =
    let (c, e, inside) = All_at IsInLine (x ∷ hs) (length hs) h (omega arith) in
    let text = (front ++ x ∷ hs) ++ ends in
    let placed : drop (length front) text ≡ (x ∷ hs) ++ ends =
      rw (append_assoc front (x ∷ hs) ends) (drop-length front ((x ∷ hs) ++ ends)) in
    let here : get_elem? text (length front + length hs) ≡ some c =
      get_elem?_at (length front) (length hs) text placed
      ∙ get_elem?-append (x ∷ hs) ends (length hs) e in
    let size : length (front ++ x ∷ hs) ≡ suc (length front + length hs) =
      omega (arith, length-append front (x ∷ hs)) in
    rw size (trimmed_len_stop text (length front + length hs) c here inside)

direct_line-trimmed :
    (front hex ends : List ℕ)
    → All IsInLine hex
    → All IsLineEnd ends
    → 0 < length hex
    → length (front ++ hex) < 512
    → direct_line ((front ++ hex) ++ ends) ≡ some (direct_event (front ++ hex))
unfolding direct_line
direct_line-trimmed front hex ends h k some_text fits =
    let whole = front ++ hex in
    let len : trimmed_len (whole ++ ends) (length (whole ++ ends)) ≡ length whole =
      rw (length-append whole ends) (
        trimmed_len-ends whole ends (length ends) (omega arith) k
        ∙ trimmed_len_full front hex ends h some_text) in
    let present : ltb 0 (length whole) ≡ true = ground (arith, length-append front hex) in
    let room : ltb (length whole) 512 ≡ true = ground (arith, fits) in
    rw (len, take-length whole ends, present, room) refl

-- A direct notification is a first line with "+CMT:" and without "+CMTI:", and then a text that ends
-- in other characters than line ends, `front` and `hex`, of at most 511 characters; the event
-- carries exactly this text, whatever line ends follow.
pub urc_event-direct :
    (atoi : List ℕ → ℕ) (line front hex ends found : List ℕ)
    → All (λ c. c ≢ 10) line
    → find_str (ascii "+CMTI:") (line ++ 10 ∷ ((front ++ hex) ++ ends)) ≡ none
    → find_str (ascii "+CMT:") (line ++ 10 ∷ ((front ++ hex) ++ ends)) ≡ some found
    → All IsInLine hex
    → All IsLineEnd ends
    → 0 < length hex
    → length (front ++ hex) < 512
    → urc_event atoi (line ++ 10 ∷ ((front ++ hex) ++ ends)) ≡ some (direct_event (front ++ hex))
unfolding urc_event
urc_event-direct atoi line front hex ends found one not_stored direct h k some_text fits =
    rw (not_stored, find_char_first 10 line ((front ++ hex) ++ ends) one, direct, urc_event)
      (direct_line-trimmed front hex ends h k some_text fits)
