-- ===== src/Esim/Es10x/Pieces.antt =====
-- An answer that the card gives in pieces is put together.
use esp32c3_sms_gateway.Prelude.{
  ℕ, zero, suc, ◌+◌, ◌-◌, ◌≤◌, ◌≡◌, ◌≢◌, refl, ap, ◌∙◌, arith, bit_and, true, false, Bool-cases,
  inl, inr, none, some, List, [], ◌∷◌, ◌++◌, length, length-append, get_elem?, get_elem?_at,
  get_elem?-drop, drop-length, take, take-length, All, ltb, ◌==◌,
}
use esp32c3_sms_gateway.Prelude.Result.{EspErr, Result, ok, fail}
use esp32c3_sms_gateway.Prelude.HexText.{IsByte}
use esp32c3_sms_gateway.Modem.Dialogue.{Reply, Modem, Io, ◌>>=◌, try, send}
use esp32c3_sms_gateway.Esim.Channel.{open_channel, close_channel, class_byte_for_channel}
use esp32c3_sms_gateway.Esim.Apdu.{cgla_cmd, transmit_apdu}
use esp32c3_sms_gateway.Esim.Apdu.Reading.{NoHex, card_line, answer_bytes-card_line}
use esp32c3_sms_gateway.Esim.Es10x.Closing.{close_channel-sent, get_response_end}
use esp32c3_sms_gateway.Esim.Es10x.{
  Answer, split_status, close_with, with_answer, get_response, finish_command, store_data,
  send_command, es10x_command,
}
use mathlib.Core.List.{append_assoc, append-nil}

-- The bytes of an answer with its status behind the data.
abbrev pub whole_bytes : Answer → List ℕ
whole_bytes a = a.bytes ++ a.sw1 ∷ a.sw2 ∷ []

-- The reply of the modem holds the answer of the card.
pub record Carries (r : Reply) (a : Answer) : Type 0 where
  pub good : r.status ≡ none
  pub number : List ℕ
  pub ends : List ℕ
  pub line : r.text ≡ card_line number (whole_bytes a) ends
  pub no_comma : All (λ c. c ≢ b',') number
  pub no_hex : NoHex ends
  pub small : All IsByte (whole_bytes a)

-- The replies hold the answers in turn; others may follow.
abbrev pub CarriesAll : List Answer → List Reply → Type 0
CarriesAll [] rs = Unit
CarriesAll (a ∷ pieces) [] = ⊥
CarriesAll (a ∷ pieces) (r ∷ rs) = Carries r a × CarriesAll pieces rs

-- Every answer but the last says that more is to come.
abbrev pub IsChain : List Answer → Type 0
IsChain [] = ⊥
IsChain (a ∷ []) = a.sw1 ≢ 0x61
IsChain (a ∷ b ∷ pieces) = (a.sw1 ≡ 0x61) × IsChain (b ∷ pieces)

abbrev pub joined : List Answer → List ℕ
joined [] = []
joined (a ∷ pieces) = a.bytes ++ joined pieces

split_status_at :
    (resp : List ℕ) (x y : ℕ)
    → get_elem? resp (length resp - 2) ≡ some x
    → get_elem? resp (length resp - 1) ≡ some y
    → split_status resp ≡ ok (record { bytes = take (length resp - 2) resp; sw1 = x; sw2 = y })
unfolding split_status
split_status_at resp x y ex ey = rw (ex, ey, split_status) refl

split_status-whole_bytes : (a : Answer) → split_status (whole_bytes a) ≡ ok a
split_status-whole_bytes a =
    let status : List ℕ = a.sw1 ∷ a.sw2 ∷ [] in
    let size = length-append a.bytes status in
    let first : length (whole_bytes a) - 2 ≡ length a.bytes = omega (arith, size) in
    let second : length (whole_bytes a) - 1 ≡ length a.bytes + 1 = omega (arith, size) in
    let behind = drop-length a.bytes status in
    split_status_at (whole_bytes a) a.sw1 a.sw2
      (ap (get_elem? (whole_bytes a)) first
        ∙ get_elem?-drop (length a.bytes) (whole_bytes a) behind)
      (ap (get_elem? (whole_bytes a)) second
        ∙ get_elem?_at (length a.bytes) 1 (whole_bytes a) behind)
    ∙ ap (λ bytes. ok (record { bytes = bytes; sw1 = a.sw1; sw2 = a.sw2 }))
        (ap (λ n. take n (whole_bytes a)) first ∙ take-length a.bytes status)

close_with-result :
    (channel : List ℕ) (r : Result (List ℕ)) (m : Modem) → (close_with channel r m).0 ≡ r
unfolding close_channel
close_with-result [] r m = refl
close_with-result (c ∷ channel) r m =
    let (answers, e) = close_channel-sent (c ∷ channel) m (omega arith) in rw e refl

transmit_apdu-Carries :
    (channel tx : List ℕ) (r : Reply) (rs : List Reply) (sent : List (List ℕ)) (a : Answer)
    → Carries r a
    → (later : List (List ℕ)) × (transmit_apdu channel tx (record { answers = r ∷ rs; sent = sent })
        ≡ (ok (whole_bytes a), record { answers = rs; sent = later }))
unfolding transmit_apdu send
transmit_apdu-Carries channel tx r rs sent a c =
    let read_back =
      answer_bytes-card_line c.number (whole_bytes a) c.ends c.no_comma c.small c.no_hex
        (omega (arith, length-append a.bytes (a.sw1 ∷ a.sw2 ∷ []))) in
    (sent ++ cgla_cmd channel tx ∷ [], rw (c.good, c.line, read_back) refl)

-- An exchange whose reply holds an answer goes on with this answer.
exchange-Carries :
    (channel tx : List ℕ) (code : EspErr → EspErr) (f : Answer → Io (List ℕ)) (r : Reply)
    (rs : List Reply) (sent : List (List ℕ)) (a : Answer)
    → Carries r a
    → (later : List (List ℕ)) × ((try (transmit_apdu channel tx) >>= with_answer channel code f)
          (record { answers = r ∷ rs; sent = sent })
        ≡ f a (record { answers = rs; sent = later }))
exchange-Carries channel tx code f r rs sent a c =
    let (later, e) = transmit_apdu-Carries channel tx r rs sent a c in
    let long : ltb (length (whole_bytes a)) 2 ≡ false =
      ground (arith, length-append a.bytes (a.sw1 ∷ a.sw2 ∷ [])) in
    (later, rw (e, long, split_status-whole_bytes a) refl)

get_response-joined :
    (pieces : List Answer) (fuel : ℕ) (channel : List ℕ) (cla sw1 sw2 : ℕ) (total : List ℕ)
    (answers : List Reply) (sent : List (List ℕ))
    → sw1 ≡ 0x61
    → IsChain pieces
    → CarriesAll pieces answers
    → length pieces ≤ fuel
    → (get_response fuel channel cla sw1 sw2 total (record { answers = answers; sent = sent })).0
      ≡ ok (total ++ joined pieces)
unfolding get_response
get_response-joined [] fuel channel cla sw1 sw2 total answers sent e h k enough = absurd h
get_response-joined (a ∷ pieces) zero channel cla sw1 sw2 total answers sent e h k enough =
    absurd (omega arith)
get_response-joined (a ∷ pieces) (suc fuel) channel cla sw1 sw2 total [] sent e h k enough =
    absurd k
get_response-joined (a ∷ []) (suc fuel) channel cla sw1 sw2 total (r ∷ rs) sent e h (c, k) enough =
    let more : (sw1 == 0x61) ≡ true = ground (arith, e) in
    let (later, exchanged) =
      exchange-Carries channel (cla ∷ 0xc0 ∷ 0x00 ∷ 0x00 ∷ sw2 ∷ []) (λ e. fail)
        (λ answer. get_response fuel channel cla answer.sw1 answer.sw2 (total ++ answer.bytes)) r rs
        sent a c in
    rw (more, exchanged, append-nil a.bytes)
      (ap (λ step. (step (record { answers = rs; sent = later })).0)
          (get_response_end fuel channel cla a.sw1 a.sw2 (total ++ a.bytes) h)
        ∙ close_with-result channel (ok (total ++ a.bytes)) (record { answers = rs; sent = later }))
get_response-joined (a ∷ b ∷ pieces) (suc fuel) channel cla sw1 sw2 total (r ∷ rs) sent e (again, h)
      (c, k) enough =
    let more : (sw1 == 0x61) ≡ true = ground (arith, e) in
    let (later, exchanged) =
      exchange-Carries channel (cla ∷ 0xc0 ∷ 0x00 ∷ 0x00 ∷ sw2 ∷ []) (λ e. fail)
        (λ answer. get_response fuel channel cla answer.sw1 answer.sw2 (total ++ answer.bytes)) r rs
        sent a c in
    rw (more, exchanged, ← append_assoc total a.bytes (joined (b ∷ pieces)))
      (get_response-joined (b ∷ pieces) fuel channel cla a.sw1 a.sw2 (total ++ a.bytes) rs later
        again h k (omega (arith, enough)))

-- One answer with a good status, or a chain.
abbrev pub IsAccepted : List Answer → Type 0
IsAccepted [] = ⊥
IsAccepted (a ∷ []) = bit_and a.sw1 0xf0 ≡ 0x90
IsAccepted (a ∷ b ∷ pieces) = IsChain (a ∷ b ∷ pieces)

finish_command-joined :
    (fuel : ℕ) (channel : List ℕ) (cla : ℕ) (a : Answer) (pieces : List Answer)
    (answers : List Reply) (sent : List (List ℕ))
    → IsAccepted (a ∷ pieces)
    → CarriesAll pieces answers
    → length pieces ≤ fuel
    → (finish_command fuel channel cla a (record { answers = answers; sent = sent })).0
      ≡ ok (joined (a ∷ pieces))
unfolding finish_command
finish_command-joined fuel channel cla a [] answers sent h k enough =
    let single : (a.sw1 == 0x61) ≡ false = elim (Bool-cases (a.sw1 == 0x61)) [
      | inr other ↦ other
      | inl more ↦ absurd (not_both a.sw1 h (ground (arith, more)))
    ] in
    let good : (bit_and a.sw1 0xf0 == 0x90) ≡ true = ground (arith, h) in
    rw (single, good, append-nil a.bytes)
      (close_with-result channel (ok a.bytes) (record { answers = answers; sent = sent }))
  where
    not_both : (n : ℕ) → bit_and n 0xf0 ≡ 0x90 → n ≡ 0x61 → ⊥
    not_both n h e = impossible (bit_and n 0xf0) (ap (λ k. bit_and k 0xf0) e) h
      where
        impossible : (k : ℕ) → k ≡ 0x60 → k ≡ 0x90 → ⊥
        impossible k e h = omega (arith, e, h)
finish_command-joined fuel channel cla a (b ∷ pieces) answers sent (again, h) k enough =
    let more : (a.sw1 == 0x61) ≡ true = ground (arith, again) in
    rw more (
      get_response-joined (b ∷ pieces) fuel channel cla a.sw1 a.sw2 a.bytes answers sent again h k
        enough)

send_command-joined :
    (fuel : ℕ) (channel : List ℕ) (cla : ℕ) (der_req : List ℕ) (pieces : List Answer)
    (answers : List Reply) (sent : List (List ℕ))
    → length der_req ≤ 255
    → IsAccepted pieces
    → CarriesAll pieces answers
    → length pieces ≤ suc fuel
    → (send_command fuel channel cla der_req (record { answers = answers; sent = sent })).0
      ≡ ok (joined pieces)
unfolding send_command
send_command-joined fuel channel cla der_req [] answers sent short h k enough = absurd h
send_command-joined fuel channel cla der_req (a ∷ pieces) [] sent short h k enough = absurd k
send_command-joined fuel channel cla der_req (a ∷ pieces) (r ∷ rs) sent short h (c, k) enough =
    let fits : ltb 255 (length der_req) ≡ false = ground (arith, short) in
    let (later, exchanged) =
      exchange-Carries channel (store_data cla der_req) (λ e. e) (finish_command fuel channel cla) r
        rs sent a c in
    rw (fits, exchanged)
      (finish_command-joined fuel channel cla a pieces rs later h k (omega (arith, enough)))

-- Where a channel is open, the request has at most 255 bytes, and the modem passes on the card's
-- answer in one piece with a good status, or in several of which all but the last say that more is to
-- come (61xx), the command returns the data of all pieces in their order, in one round of its loop for
-- each piece behind the first. The status of the last of several pieces may be anything else than
-- 61xx, an error too.
pub es10x_command-joined :
    (rounds : ℕ) (atoi : List ℕ → ℕ) (der_req : List ℕ) (m after : Modem) (channel : List ℕ)
    (pieces : List Answer)
    → open_channel atoi m ≡ (ok channel, after)
    → length der_req ≤ 255
    → IsAccepted pieces
    → CarriesAll pieces after.answers
    → length pieces ≤ suc rounds
    → (es10x_command rounds atoi der_req m).0 ≡ ok (joined pieces)
unfolding es10x_command
es10x_command-joined rounds atoi der_req m after channel pieces e short h k enough = rw e (
    send_command-joined rounds channel (class_byte_for_channel atoi channel) der_req pieces
      after.answers after.sent short h k enough)
