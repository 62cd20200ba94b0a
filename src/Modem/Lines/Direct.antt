-- ===== src/Modem/Lines/Direct.antt =====
-- A message that the modem delivers in two lines becomes one notification.
use esp32c3_sms_gateway.Prelude.{
  ℕ, ◌+◌, ◌≤◌, ◌<◌, ◌≡◌, ◌≢◌, refl, ap, ◌∙◌, arith, true, false, Option, none, some, List, [], ◌∷◌,
  ◌++◌, length, length-append, take, take_all, All, All-append, ltb, ◌==◌,
}
use esp32c3_sms_gateway.Prelude.Text.{ascii, starts, c_str, copy_str}
use esp32c3_sms_gateway.Modem.Lines.{
  Shared, Parser, Signal, urc_line, has, is_ok, is_error, is_urc, skip_blank, collect, route_line,
  receive_byte, receive,
}
use mathlib.Core.List.{append-nil, append_assoc}

-- A character that the loop only stores.
abbrev pub IsStored : ℕ → Type 0
IsStored c = (c ≢ b'>') × (c ≢ 10)

receive_byte-stored :
    (c : ℕ) (p : Parser)
    → IsStored c
    → length p.line < 1023
    → receive_byte c p
      ≡ (record { line = p.line ++ c ∷ []; pending = p.pending; shared = p.shared }, [])
unfolding receive_byte
receive_byte-stored c p (no_prompt, no_end) room =
    let a : (c == b'>') ≡ false = ground (arith, no_prompt) in
    let b : (c == 10) ≡ false = ground (arith, no_end) in
    let fits : ltb (length p.line) 1023 ≡ true = ground (arith, room) in rw (a, b, fits) refl

receive_byte-end :
    (p : Parser)
    → length p.line < 1023
    → receive_byte 10 p ≡ (
      record {
        line = [];
        pending = (route_line (c_str (p.line ++ 10 ∷ [])) p.pending).0;
        shared = collect (p.line ++ 10 ∷ []) p.shared;
      },
      (route_line (c_str (p.line ++ 10 ∷ [])) p.pending).1,
    )
unfolding receive_byte
receive_byte-end p room =
    let fits : ltb (length p.line) 1023 ≡ true = ground (arith, room) in rw fits refl

-- A line is collected up to its end and then routed as a whole.
receive-line :
    (s rest : List ℕ) (p : Parser)
    → All IsStored s
    → length p.line + length s < 1023
    → let line = p.line ++ (s ++ 10 ∷ []) in
      let (last, later) = receive rest (record {
        line = [];
        pending = (route_line (c_str line) p.pending).0;
        shared = collect line p.shared;
      }) in
      receive (s ++ 10 ∷ rest) p ≡ (last, (route_line (c_str line) p.pending).1 ++ later)
unfolding receive
receive-line [] rest p h room = rw (receive_byte-end p (omega (arith, room))) refl
receive-line (c ∷ s) rest p (h, hs) room =
    let stored = receive_byte-stored c p h (omega (arith, room)) in
    let next : Parser = record {
      line = p.line ++ c ∷ [];
      pending = p.pending;
      shared = p.shared;
    } in
    let later = receive-line s rest next hs (omega (arith, room, length-append p.line (c ∷ []))) in
    let same = append_assoc p.line (c ∷ []) (s ++ 10 ∷ []) in rw (stored, later, same) refl

c_str-text : (s : List ℕ) → All (λ c. c ≢ 0) s → c_str s ≡ s
unfolding c_str
c_str-text [] h = refl
c_str-text (c ∷ s) (h, hs) = ground (arith, h, c_str-text s hs)

-- The first line of a direct notification.
abbrev pub direct_header : List ℕ → List ℕ
direct_header info = ascii "+CMT:" ++ (info ++ 10 ∷ [])

-- A line that is neither a notification nor the end of a command.
pub record IsBody (line : List ℕ) : Type 0 where
  pub not_ok : is_ok (skip_blank line) ≡ false
  pub not_error : is_error (skip_blank line) line ≡ false
  pub not_urc : is_urc line ≡ false

route_line-body :
    (line header : List ℕ)
    → IsBody line
    → route_line line (some header) ≡ (none, urc_line (take 2175 (header ++ 13 ∷ 10 ∷ line)) ∷ [])
unfolding route_line
route_line-body line header h = rw (h.not_ok, h.not_error, h.not_urc) refl

route_line-header :
    (info : List ℕ) (pending : Option (List ℕ))
    → has (ascii "+CME ERROR:") (direct_header info) ≡ false
    → route_line (direct_header info) pending ≡ (some (copy_str 128 (direct_header info)), [])
unfolding route_line skip_blank starts
route_line-header info pending h = rw h refl

-- A character of a line.
abbrev pub IsChar : ℕ → Type 0
IsChar c = IsStored c × (c ≢ 0)

All-map : (P Q : ℕ → Type 0) (s : List ℕ) → ((c : ℕ) → P c → Q c) → All P s → All Q s
All-map P Q [] f h = tt
All-map P Q (c ∷ s) f (h, hs) = (f c h, All-map P Q s f hs)

line_text : (s : List ℕ) → All IsChar s → c_str (s ++ 10 ∷ []) ≡ s ++ 10 ∷ []
line_text s h = c_str-text (s ++ 10 ∷ []) (
    All-append (λ c. c ≢ 0) s (10 ∷ []) (All-map IsChar (λ c. c ≢ 0) s (λ c k. k.1) h)
      ((λ e. omega (arith, e)), tt))

cmt_chars : All IsChar (ascii "+CMT:")
cmt_chars = (
  ((ground arith, ground arith), ground arith),
  (
    ((ground arith, ground arith), ground arith),
    (
      ((ground arith, ground arith), ground arith),
      (
        ((ground arith, ground arith), ground arith),
        (((ground arith, ground arith), ground arith), tt),
      ),
    ),
  ),
)

-- Two lines of which the first leaves a header for the second.
receive_two-lines :
    (first body header : List ℕ) (pending : Option (List ℕ)) (shared : Option Shared)
    (signals : List Signal)
    → All IsStored first
    → All IsStored body
    → length first < 1023
    → length body < 1023
    → route_line (c_str (first ++ 10 ∷ [])) pending ≡ (some header, [])
    → route_line (c_str (body ++ 10 ∷ [])) (some header) ≡ (none, signals)
    → receive
        (first ++ 10 ∷ (body ++ 10 ∷ []))
        (record { line = []; pending = pending; shared = shared })
      ≡ (
        record {
          line = [];
          pending = none;
          shared = collect (body ++ 10 ∷ []) (collect (first ++ 10 ∷ []) shared);
        },
        signals,
      )
unfolding receive
receive_two-lines first body header pending shared signals h k short fits one two =
    let first_line =
      receive-line first (body ++ 10 ∷ [])
        (record { line = []; pending = pending; shared = shared }) h (omega (arith, short)) in
    let second_line =
      receive-line body []
        (record { line = []; pending = some header; shared = collect (first ++ 10 ∷ []) shared }) k
        (omega (arith, fits)) in
    rw (first_line, one, second_line, two, append-nil signals) refl

-- Where no line is begun, the two lines of a direct message, without NUL and prompt characters, the
-- first of at most 121 characters behind "+CMT:" and the second of at most 1000 that is no other
-- notification and no end of a command, become one line for the handlers: both, with an empty line
-- in between. The loop is then ready for the next line.
pub receive-direct :
    (info body : List ℕ) (pending : Option (List ℕ)) (shared : Option Shared)
    → All IsChar info
    → All IsChar body
    → length info ≤ 121
    → length body ≤ 1000
    → has (ascii "+CME ERROR:") (direct_header info) ≡ false
    → IsBody (body ++ 10 ∷ [])
    → let (last, signals) =
        receive
          ((ascii "+CMT:" ++ info) ++ 10 ∷ (body ++ 10 ∷ []))
          (record { line = []; pending = pending; shared = shared }) in
      (signals ≡ urc_line (direct_header info ++ 13 ∷ 10 ∷ (body ++ 10 ∷ [])) ∷ [])
      × (last.line ≡ [])
      × (last.pending ≡ none)
unfolding copy_str
receive-direct info body pending shared h k short fits no_error is_body =
    let first : List ℕ = ascii "+CMT:" ++ info in
    let chars : All IsChar first = All-append IsChar (ascii "+CMT:") info cmt_chars h in
    let header_text : c_str (direct_header info) ≡ direct_header info = line_text first chars in
    let kept : take 127 (direct_header info) ≡ direct_header info =
      take_all 127 (direct_header info) (omega (arith, short, length-append info (10 ∷ []))) in
    let header : copy_str 128 (direct_header info) ≡ direct_header info =
      ap (take 127) header_text ∙ kept in
    let whole : take 2175 (direct_header info ++ 13 ∷ 10 ∷ (body ++ 10 ∷ []))
        ≡ direct_header info ++ 13 ∷ 10 ∷ (body ++ 10 ∷ []) =
      take_all 2175 _ (
        omega (
          arith,
          short,
          fits,
          length-append info (10 ∷ []),
          length-append (direct_header info) (13 ∷ 10 ∷ (body ++ 10 ∷ [])),
          length-append body (10 ∷ []),
        )) in
    let one =
      ap (λ t. route_line t pending) header_text
      ∙ route_line-header info pending no_error
      ∙ ap (λ t. (some t, [])) header in
    let two =
      ap (λ t. route_line t (some (direct_header info))) (line_text body k)
      ∙ route_line-body (body ++ 10 ∷ []) (direct_header info) is_body
      ∙ ap (λ t. (none, urc_line t ∷ [])) whole in
    let run =
      receive_two-lines first body (direct_header info) pending shared
        (urc_line (direct_header info ++ 13 ∷ 10 ∷ (body ++ 10 ∷ [])) ∷ [])
        (All-map IsChar IsStored first (λ c k. k.0) chars)
        (All-map IsChar IsStored body (λ c k. k.0) k) (omega (arith, short)) (omega (arith, fits))
        one two in
    (ap (λ r. r.1) run, ap (λ r. r.0.line) run, ap (λ r. r.0.pending) run)
