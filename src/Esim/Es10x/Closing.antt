-- ===== src/Esim/Es10x/Closing.antt =====
-- The exchanges of a command, and how it closes its channel.
use esp32c3_sms_gateway.Prelude.{
  ℕ, zero, suc, ◌-◌, ◌<◌, ◌≡◌, refl, sym, ap, ◌∙◌, arith, Bool, true, false, if◌then◌else◌, ◌≢◌,
  Option, none, some, List, [], ◌∷◌, ◌++◌, length, get_elem?, get_elem?-lt, take, ltb, ◌==◌,
}
use esp32c3_sms_gateway.Prelude.Result.{EspErr, Result, ok, err, fault, stuck}
use esp32c3_sms_gateway.Modem.Dialogue.{Reply, Modem, send}
use esp32c3_sms_gateway.Esim.Channel.{close_channel, close_cmd}
use esp32c3_sms_gateway.Esim.Apdu.{answer_bytes, cgla_cmd, transmit_apdu}
use esp32c3_sms_gateway.Esim.Es10x.{Answer, split_status, close_with, get_response}
use mathlib.Core.List.{append-nil, append_assoc}

-- A result or an error code: no access outside an array, and no loop without end.
abbrev pub IsSettled {ℓ} : {A : Type ℓ} → Result A → Type 0
IsSettled (ok a) = Unit
IsSettled (err e) = Unit
IsSettled fault = ⊥
IsSettled stuck = ⊥

-- The dialogue ends, and its last command closes the channel.
abbrev pub IsClosed : List ℕ → Modem → Result (List ℕ) × Modem → Type 0
IsClosed channel m (r, later) =
    IsSettled r
    × ((between : List (List ℕ)) × (later.sent ≡ (m.sent ++ between) ++ close_cmd channel ∷ []))

-- Whether an answer ends in the status 61xx: the card has more to give.
unfoldable pub says_more : List ℕ → Bool
says_more resp =
    let status : Bool = elim (get_elem? resp (length resp - 2)) [
      | none ↦ false
      | some sw1 ↦ sw1 == 0x61
    ] in
    if ltb (length resp) 2 then false else status

abbrev pub wants_more : Result (List ℕ) → Bool
wants_more (ok resp) = says_more resp
wants_more (err e) = false
wants_more fault = false
wants_more stuck = false

-- What an exchange makes of a reply of the modem.
abbrev pub reply_bytes : Reply → Result (List ℕ)
reply_bytes r = elim r.status [ none ↦ answer_bytes r.text | some e ↦ err e ]

-- How many answers in a row, from the first on, say that there is more to come.
unfoldable pub demands : List Reply → ℕ
demands [] = 0
demands (r ∷ rs) = let more = suc (demands rs) in if wants_more (reply_bytes r) then more else 0

-- The rounds of the loop that a request takes; one of more than 255 bytes is not sent.
abbrev pub rounds_needed : List ℕ → Modem → ℕ
rounds_needed der_req m = if ltb 255 (length der_req) then 0 else demands m.answers

-- What one exchange leaves.
pub record IsExchange (cmd : List ℕ) (m : Modem) (out : Result (List ℕ) × Modem) : Type 0 where
  pub settled : IsSettled out.0
  pub sent : out.1.sent ≡ m.sent ++ cmd ∷ []
  pub demanded : demands m.answers ≡ (if wants_more out.0 then suc (demands out.1.answers) else 0)

answer_bytes-IsSettled : (resp : List ℕ) → IsSettled (answer_bytes resp)
unfolding answer_bytes
answer_bytes-IsSettled resp = ground arith

pub transmit_apdu-IsExchange :
    (channel tx : List ℕ) (m : Modem)
    → IsExchange (cgla_cmd channel tx) m (transmit_apdu channel tx m)
unfolding transmit_apdu send demands
transmit_apdu-IsExchange channel tx m = go m.answers
  where
    settled_reply :
        (status : Option EspErr) (s : List ℕ)
        → IsSettled (elim status [ none ↦ answer_bytes s | some e ↦ err e ])
    settled_reply none s = answer_bytes-IsSettled s
    settled_reply (some e) s = tt

    go :
        (answers : List Reply)
        → IsExchange
            (cgla_cmd channel tx)
            (record { answers = answers; sent = m.sent })
            (transmit_apdu channel tx (record { answers = answers; sent = m.sent }))
    go [] = record { settled = tt; sent = refl; demanded = refl }
    go (r ∷ answers) = record {
      settled = settled_reply r.status r.text;
      sent = refl;
      demanded = refl;
    }

-- A step in front of a dialogue that closes the channel.
pub step-IsClosed :
    (channel cmd : List ℕ) (m later : Modem) (out : Result (List ℕ) × Modem)
    → later.sent ≡ m.sent ++ cmd ∷ []
    → IsClosed channel later out
    → IsClosed channel m out
step-IsClosed channel cmd m later out e (settled, (between, closed)) =
    (settled, (cmd ∷ between, closed ∙ rw (e, append_assoc m.sent (cmd ∷ []) between) refl))

pub close_channel-sent :
    (channel : List ℕ) (m : Modem)
    → 0 < length channel
    → (answers : List Reply) × (close_channel channel m
        ≡ (ok tt, record { answers = answers; sent = m.sent ++ close_cmd channel ∷ [] }))
unfolding close_channel send
close_channel-sent [] m present = absurd (omega arith)
close_channel-sent (c ∷ channel) m present = go m.answers
  where
    go :
        (answers : List Reply)
        → (left : List Reply) × (close_channel
              (c ∷ channel)
              (record { answers = answers; sent = m.sent })
            ≡ (ok tt, record { answers = left; sent = m.sent ++ close_cmd (c ∷ channel) ∷ [] }))
    go [] = ([], ground arith)
    go (r ∷ answers) = (answers, ground arith)

pub close_with-IsClosed :
    (channel : List ℕ) (r : Result (List ℕ)) (m : Modem)
    → 0 < length channel
    → IsSettled r
    → IsClosed channel m (close_with channel r m)
close_with-IsClosed channel r m present settled =
    let (answers, e) = close_channel-sent channel m present in
    rw e (settled, ([], ap (λ t. t ++ close_cmd channel ∷ []) (sym (append-nil m.sent))))

pub split_status_ok :
    (resp : List ℕ)
    → ltb (length resp) 2 ≡ false
    → (a : Answer) × (split_status resp ≡ ok a) × (says_more resp ≡ (a.sw1 == 0x61))
unfolding split_status says_more
split_status_ok resp long =
    go (get_elem?-lt resp (length resp - 2) (ground (arith, long)))
      (get_elem?-lt resp (length resp - 1) (ground (arith, long)))
  where
    go :
        ((x : ℕ) × (get_elem? resp (length resp - 2) ≡ some x))
        → ((y : ℕ) × (get_elem? resp (length resp - 1) ≡ some y))
        → (a : Answer) × (split_status resp ≡ ok a) × (says_more resp ≡ (a.sw1 == 0x61))
    go (x, ex) (y, ey) = (
      record { bytes = take (length resp - 2) resp; sw1 = x; sw2 = y },
      rw (ex, ey, split_status) refl,
      rw (long, ex, says_more) refl,
    )

pub says_more_short : (resp : List ℕ) → ltb (length resp) 2 ≡ true → says_more resp ≡ false
unfolding says_more
says_more_short resp short = rw (short, says_more) refl

-- The loop is left where the status is not 61xx.
pub get_response_end :
    (fuel : ℕ) (channel : List ℕ) (cla sw1 sw2 : ℕ) (total : List ℕ)
    → sw1 ≢ 0x61
    → get_response fuel channel cla sw1 sw2 total ≡ close_with channel (ok total)
unfolding get_response
get_response_end zero channel cla sw1 sw2 total last =
    let over : (sw1 == 0x61) ≡ false = ground (arith, last) in rw over refl
get_response_end (suc fuel) channel cla sw1 sw2 total last =
    let over : (sw1 == 0x61) ≡ false = ground (arith, last) in rw over refl
