-- ===== src/Sms/Received/Notification.antt =====
-- The two lines of a direct message and the notification that is made of them.
use esp32c3_sms_gateway.Prelude.{
  ℕ, ◌/◌, ◌%◌, ◌≤◌, ◌<◌, ◌≡◌, ◌≢◌, refl, sym, ap, ◌∙◌, inl, inr, arith, false, none, some, List, [],
  ◌∷◌, ◌++◌, length, take, take_all, All, All-append,
}
use esp32c3_sms_gateway.Prelude.HexText.{hex_digit, hex_text, IsByte, length-hex_text}
use esp32c3_sms_gateway.Prelude.Text.{ascii, c_str, copy_str, starts, find_str}
use esp32c3_sms_gateway.Modem.Lines.{has, skip_blank, sms_received, process_urc_line}
use esp32c3_sms_gateway.Modem.Lines.Direct.{IsChar, IsBody, direct_header}
use esp32c3_sms_gateway.Pdu.Decode.Conversion.{IsNoise}
use esp32c3_sms_gateway.Sms.Task.Events.{SevenBitMessage, message_bytes}
use mathlib.Core.List.{append-nil, append_assoc}

-- A character of a PDU's text: a digit or one of A to F.
abbrev pub IsHexDigit : ℕ → Type 0
IsHexDigit c = (b'0' ≤ c) × (c ≤ b'F') × (c ≢ b'>')

hex_digit-IsHexDigit : (n : ℕ) → n < 16 → IsHexDigit (hex_digit n)
unfolding hex_digit
hex_digit-IsHexDigit n h = (ground (arith, h), ground (arith, h), λ e. ground (arith, h, e))

pub hex_text-IsHexDigit : (bs : List ℕ) → All IsByte bs → All IsHexDigit (hex_text bs)
unfolding hex_text
hex_text-IsHexDigit [] h = tt
hex_text-IsHexDigit (b ∷ bs) h = (
  hex_digit-IsHexDigit (b / 16) (omega (arith, h.0)),
  (hex_digit-IsHexDigit (b % 16) (omega arith), hex_text-IsHexDigit bs h.1),
)

pub All-weaken : (P Q : ℕ → Type 0) (s : List ℕ) → ((c : ℕ) → P c → Q c) → All P s → All Q s
All-weaken P Q [] f h = tt
All-weaken P Q (c ∷ s) f (h, hs) = (f c h, All-weaken P Q s f hs)

-- A text without the first character of what is looked for.
find_str-none : (c : ℕ) (needle s : List ℕ) → All (λ x. x ≢ c) s → find_str (c ∷ needle) s ≡ none
unfolding find_str starts
find_str-none c needle [] h = refl
find_str-none c needle (x ∷ s) h = ground (arith, h.0, find_str-none c needle s h.1)

c_str-whole : (s : List ℕ) → All (λ c. c ≢ 0) s → c_str s ≡ s
unfolding c_str
c_str-whole [] h = refl
c_str-whole (c ∷ s) h = ground (arith, h.0, c_str-whole s h.1)

-- What the modem writes behind "+CMT:", up to the end of the line.
abbrev pub IsInfo : ℕ → Type 0
IsInfo c = IsChar c × (c ≢ b'+')

-- The line of the PDU, with the carriage return of the modem.
abbrev pub pdu_line : SevenBitMessage → List ℕ
pdu_line m = hex_text (message_bytes m) ++ 13 ∷ []

-- What the handlers get: both lines, with an empty one in between.
abbrev pub notification : List ℕ → SevenBitMessage → List ℕ
notification info m = direct_header info ++ 13 ∷ 10 ∷ (pdu_line m ++ 10 ∷ [])

pub has-none : (needle s : List ℕ) → find_str needle s ≡ none → has needle s ≡ false
has-none needle s e = rw (e, has) refl

hex_line-IsBody :
    (x y : ℕ) (s : List ℕ)
    → IsHexDigit x
    → IsHexDigit y
    → All (λ c. c ≢ b'+') s
    → IsBody (x ∷ y ∷ s)
unfolding skip_blank starts
hex_line-IsBody x y s hx hy plain =
    let dark : skip_blank (x ∷ y ∷ s) ≡ x ∷ y ∷ s = ground (arith, hx) in
    let no_code : has (ascii "+CME ERROR:") (x ∷ y ∷ s) ≡ false =
      has-none (ascii "+CME ERROR:") (x ∷ y ∷ s) (
        find_str-none b'+' (ascii "CME ERROR:") (x ∷ y ∷ s)
          ((λ e. omega (arith, hx, e)), ((λ e. omega (arith, hy, e)), plain))) in
    let no_word : starts (ascii "ERROR") (x ∷ y ∷ s) ≡ false = ground (arith, hx, hy) in
    record {
      not_ok = rw dark (ground (arith, hx));
      not_error = rw (dark, no_word, no_code) refl;
      not_urc = ground (arith, hx);
    }

-- The notification has no "+" but the one it begins with.
pub notification-plain :
    (info : List ℕ) (m : SevenBitMessage)
    → All IsInfo info
    → All IsByte (message_bytes m)
    → All (λ c. c ≢ b'+') (info ++ 10 ∷ (13 ∷ 10 ∷ (pdu_line m ++ 10 ∷ [])))
notification-plain info m h bytes =
    let digits : All (λ c. c ≢ b'+') (hex_text (message_bytes m)) =
      All-weaken IsHexDigit (λ c. c ≢ b'+') _ (λ c k e. omega (arith, k, e))
        (hex_text-IsHexDigit (message_bytes m) bytes) in
    All-append (λ c. c ≢ b'+') info _ (All-weaken IsInfo (λ c. c ≢ b'+') info (λ c k. k.1) h)
      (
        (λ e. omega (arith, e)),
        (
          (λ e. omega (arith, e)),
          (
            (λ e. omega (arith, e)),
            All-append (λ c. c ≢ b'+') (pdu_line m) (10 ∷ [])
                (All-append (λ c. c ≢ b'+') (hex_text (message_bytes m)) (13 ∷ []) digits
                  ((λ e. omega (arith, e)), tt))
                ((λ e. omega (arith, e)), tt),
          ),
        ),
      )

-- Behind the "+" with which it begins, a text of a notification has nothing that starts like one.
pub other_texts :
    (s : List ℕ)
    → All (λ c. c ≢ b'+') s
    → (find_str (ascii "+CMTI:") (ascii "+CMT:" ++ s) ≡ none)
      × (find_str (ascii "+CMT:") (ascii "+CMT:" ++ s) ≡ some (ascii "+CMT:" ++ s))
      × (find_str (ascii "+CME ERROR:") (ascii "+CMT:" ++ s) ≡ none)
unfolding find_str starts
other_texts s h =
    let stored : find_str (ascii "+CMTI:") s ≡ none = find_str-none b'+' (ascii "CMTI:") s h in
    let code : find_str (ascii "+CME ERROR:") s ≡ none =
      find_str-none b'+' (ascii "CME ERROR:") s h in
    (rw stored refl, refl, rw code refl)

pub process_urc_line-direct :
    (s : List ℕ) → process_urc_line (ascii "+CMT:" ++ s) ≡ some sms_received
unfolding process_urc_line find_str starts
process_urc_line-direct s = refl

pub hex_text-IsBody :
    (bs ends : List ℕ)
    → 0 < length bs
    → All IsByte bs
    → All (λ c. c ≢ b'+') ends
    → IsBody (hex_text bs ++ ends)
unfolding hex_text
hex_text-IsBody [] ends some_bytes bytes plain = absurd (omega arith)
hex_text-IsBody (b ∷ bs) ends some_bytes bytes plain =
    let digits = hex_text-IsHexDigit (b ∷ bs) bytes in
    hex_line-IsBody (hex_digit (b / 16)) (hex_digit (b % 16)) (hex_text bs ++ ends) digits.0
      digits.1.0
      (All-append (λ c. c ≢ b'+') (hex_text bs) ends
        (All-weaken IsHexDigit (λ c. c ≢ b'+') _ (λ c k e. omega (arith, k, e)) digits.1.1) plain)

-- The notification as a first line and what follows it.
pub notification-lines :
    (info : List ℕ) (m : SevenBitMessage)
    → notification info m
      ≡ (ascii "+CMT:" ++ info)
        ++ 10 ∷ (((13 ∷ 10 ∷ []) ++ hex_text (message_bytes m)) ++ (13 ∷ 10 ∷ []))
notification-lines info m =
    let hex = hex_text (message_bytes m) in
    rw
      (
        append_assoc info (10 ∷ []) (13 ∷ 10 ∷ ((hex ++ 13 ∷ []) ++ 10 ∷ [])),
        append_assoc hex (13 ∷ []) (10 ∷ []),
      )
      refl

pub around-IsNoise : IsNoise (13 ∷ 10 ∷ []) []
around-IsNoise = record { blanks = (inr (inl refl), (inr (inr refl), tt)); ends = tt }

-- The text of the event, as the task copies it.
pub event_text :
    (bs : List ℕ)
    → All IsByte bs
    → length bs ≤ 254
    → copy_str 512 ((13 ∷ 10 ∷ []) ++ hex_text bs) ≡ (13 ∷ 10 ∷ []) ++ (hex_text bs ++ [])
unfolding copy_str
event_text bs bytes small =
    let text = (13 ∷ 10 ∷ []) ++ hex_text bs in
    let whole : c_str text ≡ text = c_str-whole text (
      (λ e. omega (arith, e)),
      (
        (λ e. omega (arith, e)),
        All-weaken IsHexDigit (λ c. c ≢ 0) _ (λ c k e. omega (arith, k, e))
            (hex_text-IsHexDigit bs bytes),
      ),
    ) in
    ap (take 511) whole
    ∙ take_all 511 text (omega (arith, small, length-hex_text bs))
    ∙ ap (λ t. (13 ∷ 10 ∷ []) ++ t) (sym (append-nil (hex_text bs)))

pub hex-IsChar : (c : ℕ) → IsHexDigit c → IsChar c
hex-IsChar c k = ((k.2, λ e. omega (arith, k, e)), λ e. omega (arith, k, e))

pub return-IsChar : IsChar 13
return-IsChar = (((λ e. omega (arith, e)), λ e. omega (arith, e)), λ e. omega (arith, e))

pub first_line : (info : List ℕ) → All IsInfo info → All (λ c. c ≢ 10) (ascii "+CMT:" ++ info)
first_line info h =
    All-append (λ c. c ≢ 10) (ascii "+CMT:") info
      (
        (λ e. omega (arith, e)),
        (
          (λ e. omega (arith, e)),
          ((λ e. omega (arith, e)), ((λ e. omega (arith, e)), ((λ e. omega (arith, e)), tt))),
        ),
      )
      (All-weaken IsInfo (λ c. c ≢ 10) info (λ c k. k.0.0.1) h)
