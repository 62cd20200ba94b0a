-- ===== src/Esim/Channel/Opening.antt =====
-- Opening a channel ends with the text of a channel or an error.
use esp32c3_sms_gateway.Prelude.{
  ℕ, zero, suc, ◌+◌, ◌/◌, ◌%◌, ◌≤◌, ◌<◌, inl, inr, arith, Bool, true, false, Bool-cases, ◌||◌,
  Option, none, some, List, [], ◌∷◌, ◌++◌, length, length-append, ltb, ◌==◌, if◌then◌else◌,
}
use esp32c3_sms_gateway.Prelude.Result.{EspErr, Result, ok, err, fault, stuck}
use esp32c3_sms_gateway.Prelude.Text.{ascii, decimal, decimal_digits}
use esp32c3_sms_gateway.Modem.Dialogue.{Reply, Modem, Io, ◌>>=◌, send}
use esp32c3_sms_gateway.Esim.Channel.{
  open_cmd, isd_r_aid, alt_aids, bytes_to_hex, says, accepted_or, checked_channel, open_alternative,
  close_all, parse_channel, open_channel, close_cmd,
}

-- What `open_channel` gives: the text of a channel, or an error.
abbrev pub IsOpening : Result (List ℕ) → Type 0
IsOpening (ok channel) = 0 < length channel
IsOpening (err e) = Unit
IsOpening fault = ⊥
IsOpening stuck = ⊥

abbrev pub Opens : Modem → Result (List ℕ) × Modem → Type 0
Opens m out = IsOpening out.0 × (length out.1.answers ≤ length m.answers)

decimal-length : (n : ℕ) → 0 < length (decimal n)
unfolding decimal decimal_digits
decimal-length n = omega (
  arith,
  length-append (if ltb n 10 then [] else decimal_digits 9 (n / 10)) ((b'0' + n % 10) ∷ []),
)

checked_channel-IsOpening : (ch : ℕ) → IsOpening (checked_channel ch)
checked_channel-IsOpening ch = elim (Bool-cases (ch == 0 || ltb 20 ch)) [
  | inl bad ↦ rw bad tt
  | inr good ↦ rw good (decimal-length ch)
]

-- A step of the dialogue whose reply decides what follows.
send-Opens :
    (cmd : List ℕ) (m : Modem) (f : Reply → Io (List ℕ))
    → ((r : Reply) (later : Modem) → Opens later (f r later))
    → Opens m ((send cmd >>= f) m)
unfolding send
send-Opens cmd m f opens = go m.answers
  where
    go :
        (answers : List Reply)
        → Opens
            (record { answers = answers; sent = m.sent })
            ((send cmd >>= f) (record { answers = answers; sent = m.sent }))
    go [] = opens _ _
    go (r ∷ answers) =
        let (opening, fewer) = opens r (record { answers = answers; sent = m.sent ++ cmd ∷ [] }) in
        (opening, omega (arith, fewer))

close_all-Opens :
    (more i : ℕ) (m : Modem) (f : Io (List ℕ))
    → ((later : Modem) → Opens later (f later))
    → Opens m ((close_all more i >>= λ u. f) m)
unfolding close_all send
close_all-Opens zero i m f h = h m
close_all-Opens (suc more) i m f h = go m.answers (λ later. close_all-Opens more (i + 1) later f h)
  where
    go :
        (answers : List Reply)
        → ((later : Modem) → Opens later ((close_all more (i + 1) >>= λ u. f) later))
        → Opens
            (record { answers = answers; sent = m.sent })
            (((send (close_cmd (decimal i)) >>= λ r. close_all more (i + 1)) >>= λ u. f)
              (record { answers = answers; sent = m.sent }))
    go [] rest = rest _
    go (r ∷ answers) rest =
        let (opening, fewer) =
          rest (record { answers = answers; sent = m.sent ++ close_cmd (decimal i) ∷ [] }) in
        (opening, omega (arith, fewer))

module _ (atoi : List ℕ → ℕ) where
  accepted_or-Opens :
      (status : Option EspErr) (s : List ℕ) (otherwise : Io (List ℕ)) (later : Modem)
      → Opens later (otherwise later)
      → Opens later (accepted_or atoi status s otherwise later)
  accepted_or-Opens none s otherwise later h =
      (checked_channel-IsOpening (parse_channel atoi s), omega arith)
  accepted_or-Opens (some e) s otherwise later h = h

  open_alternative-Opens :
      (aids : List (List ℕ)) (m : Modem) → Opens m (open_alternative atoi aids m)
  unfolding open_alternative
  open_alternative-Opens [] m = (tt, omega arith)
  open_alternative-Opens (aid ∷ aids) m = send-Opens (open_cmd aid) m _ (λ r later.
      accepted_or-Opens r.status r.text (open_alternative atoi aids) later
        (open_alternative-Opens aids later))

  pub open_channel-Opens : (m : Modem) → Opens m (open_channel atoi m)
  unfolding open_channel
  open_channel-Opens m = send-Opens cmd m _ (λ r later.
      accepted_or-Opens r.status r.text _ later
        (refused (says (ascii "ERROR: 20") r.text || says (ascii "CME ERROR") r.text) later))
    where
      cmd : List ℕ
      cmd = open_cmd (bytes_to_hex isd_r_aid 64)

      retried : Io (List ℕ)
      retried = send cmd >>= λ again.
          accepted_or atoi again.status again.text (open_alternative atoi alt_aids)

      refused :
          (full : Bool) (later : Modem)
          → Opens later (
              (if full then (close_all 8 1 >>= λ u. retried) else open_alternative atoi alt_aids)
                later)
      refused false later = open_alternative-Opens alt_aids later
      refused true later = close_all-Opens 8 1 later retried (λ after.
          send-Opens cmd after _ (λ again last.
            accepted_or-Opens again.status again.text (open_alternative atoi alt_aids) last
              (open_alternative-Opens alt_aids last)))
