-- ===== src/Esim/Es10x/Rounds.antt =====
-- How many rounds a command takes, and that it closes the channel that it opened.
use esp32c3_sms_gateway.Prelude.{
  ℕ, zero, suc, ◌≤◌, ◌<◌, ◌≡◌, ◌⊎◌, inl, inr, refl, ◌∙◌, arith, bit_and, true, false, if◌then◌else◌,
  ==_iff, ◌≢◌, Bool-cases, List, [], ◌∷◌, ◌++◌, length, ltb, ◌==◌,
}
use esp32c3_sms_gateway.Prelude.Result.{EspErr, Result, ok, err, fault, stuck, fail, invalid_arg}
use esp32c3_sms_gateway.Modem.Dialogue.{Modem, Io, next, ◌>>=◌, try}
use esp32c3_sms_gateway.Esim.Channel.{open_channel, class_byte_for_channel}
use esp32c3_sms_gateway.Esim.Apdu.{cgla_cmd, transmit_apdu}
use esp32c3_sms_gateway.Esim.Es10x.{
  Answer, with_answer, get_response, finish_command, store_data, send_command, es10x_command,
}
use esp32c3_sms_gateway.Esim.Channel.Opening.{Opens, open_channel-Opens}
use esp32c3_sms_gateway.Esim.Es10x.Closing.{
  IsSettled, IsClosed, says_more, wants_more, demands, rounds_needed, transmit_apdu-IsExchange,
  step-IsClosed, close_with-IsClosed, split_status_ok, says_more_short, get_response_end,
}

-- A dialogue that needs `need` rounds of the loop: with fewer it is stuck, otherwise it ends and
-- closes the channel.
abbrev pub EndsIn : ℕ → ℕ → List ℕ → Modem → Result (List ℕ) × Modem → Type 0
EndsIn rounds need channel m out =
    ((rounds < need) × (out.0 ≡ stuck)) ⊎ ((need ≤ rounds) × IsClosed channel m out)

EndsIn-suc :
    (rounds need : ℕ) (channel : List ℕ) (m : Modem) (out : Result (List ℕ) × Modem)
    → EndsIn rounds need channel m out
    → EndsIn (suc rounds) (suc need) channel m out
EndsIn-suc rounds need channel m out (inl (less, e)) = inl (omega (arith, less), e)
EndsIn-suc rounds need channel m out (inr (enough, closed)) = inr (omega (arith, enough), closed)

-- A step in front of a dialogue.
step-EndsIn :
    (rounds need : ℕ) (channel cmd : List ℕ) (m later : Modem) (out : Result (List ℕ) × Modem)
    → later.sent ≡ m.sent ++ cmd ∷ []
    → EndsIn rounds need channel later out
    → EndsIn rounds need channel m out
step-EndsIn rounds need channel cmd m later out e (inl before) = inl before
step-EndsIn rounds need channel cmd m later out e (inr (enough, closed)) =
    inr (enough, step-IsClosed channel cmd m later out e closed)

module _ (channel : List ℕ) (present : 0 < length channel) where
  -- An exchange: where its answer says that there is more, what follows decides; otherwise it closes
  -- the channel.
  exchange-EndsIn :
      (rounds : ℕ) (tx : List ℕ) (m : Modem) (code : EspErr → EspErr) (f : Answer → Io (List ℕ))
      → ((a : Answer) (later : Modem)
          → a.sw1 ≡ 0x61
          → EndsIn rounds (suc (demands later.answers)) channel later (f a later))
      → ((a : Answer) (later : Modem) → a.sw1 ≢ 0x61 → IsClosed channel later (f a later))
      → EndsIn rounds
          (demands m.answers)
          channel
          m
          ((try (transmit_apdu channel tx) >>= with_answer channel code f) m)
  exchange-EndsIn rounds tx m code f goes_on closes =
      let exchange = transmit_apdu-IsExchange channel tx m in
      let out = transmit_apdu channel tx m in
      step-EndsIn rounds (demands m.answers) channel (cgla_cmd channel tx) m out.1
        (with_answer channel code f out.0 out.1) exchange.sent
        (handled out.0 out.1 (demands m.answers) exchange.settled exchange.demanded)
    where
      handled :
          (r : Result (List ℕ)) (later : Modem) (need : ℕ)
          → IsSettled r
          → need ≡ (if wants_more r then suc (demands later.answers) else 0)
          → EndsIn rounds need channel later (with_answer channel code f r later)
      handled (ok resp) later need settled e = elim (Bool-cases (ltb (length resp) 2)) [
        | inl short ↦
            let none_more : says_more resp ≡ false = says_more_short resp short in
            rw short (
              inr (
                ground (arith, e, none_more),
                close_with-IsClosed channel (err fail) later present tt,
              ))
        | inr long ↦
            let (a, split, more) = split_status_ok resp long in
            rw (long, split)
              (elim (Bool-cases (a.sw1 == 0x61)) [
                | inl again ↦
                    let wanted : says_more resp ≡ true = more ∙ again in
                    let needed : need ≡ suc (demands later.answers) = ground (arith, e, wanted) in
                    rw needed (goes_on a later ((==_iff a.sw1 0x61).0 again))
                | inr over ↦
                    let wanted : says_more resp ≡ false = more ∙ over in
                    inr (ground (arith, e, wanted), closes a later (ground (arith, over)))
              ])
      ]
      handled (err c) later need settled e =
          inr (omega (arith, e), close_with-IsClosed channel (err (code c)) later present tt)
      handled fault later need settled e = absurd settled
      handled stuck later need settled e = absurd settled

  get_response-EndsIn :
      (rounds cla sw1 sw2 : ℕ) (total : List ℕ) (m : Modem)
      → sw1 ≡ 0x61
      → EndsIn rounds
          (suc (demands m.answers))
          channel
          m
          (get_response rounds channel cla sw1 sw2 total m)
  unfolding get_response
  get_response-EndsIn zero cla sw1 sw2 total m e =
      let more : (sw1 == 0x61) ≡ true = ground (arith, e) in rw more (inl (omega arith, refl))
  get_response-EndsIn (suc rounds) cla sw1 sw2 total m e =
      let more : (sw1 == 0x61) ≡ true = ground (arith, e) in
      let tx : List ℕ = cla ∷ 0xc0 ∷ 0x00 ∷ 0x00 ∷ sw2 ∷ [] in
      let f : Answer → Io (List ℕ) =
        λ a. get_response rounds channel cla a.sw1 a.sw2 (total ++ a.bytes) in
      rw more (
        EndsIn-suc rounds (demands m.answers) channel m
          ((try (transmit_apdu channel tx) >>= with_answer channel (λ e. fail) f) m)
          (exchange-EndsIn rounds tx m (λ e. fail) f
            (λ a later again.
              get_response-EndsIn rounds cla a.sw1 a.sw2 (total ++ a.bytes) later again)
            (λ a later over.
              rw (get_response_end rounds channel cla a.sw1 a.sw2 (total ++ a.bytes) over)
                (close_with-IsClosed channel (ok (total ++ a.bytes)) later present tt))))

  finish_command_more :
      (rounds cla : ℕ) (a : Answer) (m : Modem)
      → a.sw1 ≡ 0x61
      → EndsIn rounds (suc (demands m.answers)) channel m (finish_command rounds channel cla a m)
  unfolding finish_command
  finish_command_more rounds cla a m e =
      let more : (a.sw1 == 0x61) ≡ true = ground (arith, e) in
      rw more (get_response-EndsIn rounds cla a.sw1 a.sw2 a.bytes m e)

  finish_command-IsClosed :
      (rounds cla : ℕ) (a : Answer) (m : Modem)
      → a.sw1 ≢ 0x61
      → IsClosed channel m (finish_command rounds channel cla a m)
  unfolding finish_command
  finish_command-IsClosed rounds cla a m last =
      let over : (a.sw1 == 0x61) ≡ false = ground (arith, last) in
      elim (Bool-cases (bit_and a.sw1 0xf0 == 0x90)) [
        | inl good ↦ rw (over, good) (close_with-IsClosed channel (ok a.bytes) m present tt)
        | inr bad ↦ rw (over, bad) (close_with-IsClosed channel (err fail) m present tt)
      ]

  send_command-EndsIn :
      (rounds cla : ℕ) (der_req : List ℕ) (m : Modem)
      → EndsIn rounds
          (rounds_needed der_req m)
          channel
          m
          (send_command rounds channel cla der_req m)
  unfolding send_command
  send_command-EndsIn rounds cla der_req m = elim (Bool-cases (ltb 255 (length der_req))) [
    | inl long ↦
        rw long (inr (omega arith, close_with-IsClosed channel (err invalid_arg) m present tt))
    | inr fits ↦ rw fits (
        exchange-EndsIn rounds (store_data cla der_req) m (λ e. e)
          (finish_command rounds channel cla)
          (λ a later again. finish_command_more rounds cla a later again)
          (λ a later over. finish_command-IsClosed rounds cla a later over))
  ]

-- A command to the card, for any modem and any number of rounds for which its loop is followed, makes
-- no read outside an answer. Where no channel could be opened it ends at once with the error of that.
-- Where one was opened, it needs as many rounds as the card says in a row that it has more to give,
-- none if the request has more than 255 bytes: with fewer rounds it is still in its loop, and otherwise
-- it ends with bytes or an error code, and the last command of the dialogue closes the channel.
pub es10x_command-EndsIn :
    (rounds : ℕ) (atoi : List ℕ → ℕ) (der_req : List ℕ) (m : Modem)
    → let (opened, after) = open_channel atoi m in
      let (r, later) = es10x_command rounds atoi der_req m in
      ((e : EspErr) × (opened ≡ err e) × (r ≡ err e) × (later ≡ after))
      ⊎ ((channel : List ℕ) × (opened ≡ ok channel)
          × EndsIn rounds (rounds_needed der_req after) channel after (r, later))
unfolding es10x_command
es10x_command-EndsIn rounds atoi der_req m = go (open_channel atoi m) (open_channel-Opens atoi m)
  where
    go :
        (out : Result (List ℕ) × Modem)
        → Opens m out
        → let (r, later) =
            next
              (λ channel. send_command rounds channel (class_byte_for_channel atoi channel) der_req)
              out in
          ((e : EspErr) × (out.0 ≡ err e) × (r ≡ err e) × (later ≡ out.1))
          ⊎ ((channel : List ℕ) × (out.0 ≡ ok channel)
              × EndsIn rounds (rounds_needed der_req out.1) channel out.1 (r, later))
    go (ok channel, after) (present, fewer) = inr (
      channel,
      refl,
      send_command-EndsIn channel present rounds (class_byte_for_channel atoi channel) der_req
          after,
    )
    go (err e, after) h = inl (e, refl, refl, refl)
    go (fault, after) (h, fewer) = absurd h
    go (stuck, after) (h, fewer) = absurd h
