-- ===== src/Esim/Es10x.antt =====
-- `es10x_command` of esim_manager.c: a request to the card over a channel of its own, with the
-- rest of a long answer fetched by GET RESPONSE.
pub mod Closing
pub mod Rounds
pub mod Pieces
use esp32c3_sms_gateway.Prelude.{
  ℕ, zero, suc, ◌+◌, ◌-◌, bit_and, Bool, true, false, Option, none, some, List, [], ◌∷◌, ◌++◌,
  length, take, ltb, ◌==◌, if◌then◌else◌,
}
use esp32c3_sms_gateway.Prelude.Result.{
  EspErr, fail, invalid_arg, Result, ok, err, fault, stuck, read,
}
use esp32c3_sms_gateway.Modem.Dialogue.{Modem, Io, ◌>>=◌, pure, try}
use esp32c3_sms_gateway.Esim.Channel.{open_channel, close_channel, class_byte_for_channel}
use esp32c3_sms_gateway.Esim.Apdu.{transmit_apdu}

-- An answer of the card: its data and the two bytes of its status.
pub record Answer : Type 0 where
  pub bytes : List ℕ
  pub sw1 : ℕ
  pub sw2 : ℕ

unfoldable pub split_status : List ℕ → Result Answer
split_status resp = elim (read resp (length resp - 2)) [
  | ok sw1 ↦ elim (read resp (length resp - 1)) [
    | ok sw2 ↦ ok (record { bytes = take (length resp - 2) resp; sw1 = sw1; sw2 = sw2 })
    | err e ↦ err e
    | fault ↦ fault
    | stuck ↦ stuck
  ]
  | err e ↦ err e
  | fault ↦ fault
  | stuck ↦ stuck
]

-- `close_channel(channel); return r;`
abbrev pub close_with : List ℕ → Result (List ℕ) → Io (List ℕ)
close_with channel r = close_channel channel >>= λ u. pure r

-- What both exchanges do with an answer: an error, whose code `code` chooses, and a text too short for
-- a status close the channel.
abbrev pub with_answer :
    List ℕ → (EspErr → EspErr) → (Answer → Io (List ℕ)) → Result (List ℕ) → Io (List ℕ)
with_answer channel code f (ok resp) =
    if ltb (length resp) 2 then close_with channel (err fail) else (pure (split_status resp) >>= f)
with_answer channel code f (err e) = close_with channel (err (code e))
with_answer channel code f fault = pure fault
with_answer channel code f stuck = pure stuck

-- The loop over the rest of an answer. The code bounds it by nothing; the model follows it for some
-- rounds, and is stuck where a card still has more to give.
unfoldable pub get_response : ℕ → List ℕ → ℕ → ℕ → ℕ → List ℕ → Io (List ℕ)
get_response zero channel cla sw1 sw2 total =
    if sw1 == 0x61 then pure stuck else close_with channel (ok total)
get_response (suc fuel) channel cla sw1 sw2 total =
    if sw1 == 0x61
    then (do
      got ← try (transmit_apdu channel (cla ∷ 0xc0 ∷ 0x00 ∷ 0x00 ∷ sw2 ∷ []))
      with_answer channel (λ e. fail)
          (λ answer. get_response fuel channel cla answer.sw1 answer.sw2 (total ++ answer.bytes))
          got)
    else close_with channel (ok total)

-- What follows the first answer.
unfoldable pub finish_command : ℕ → List ℕ → ℕ → Answer → Io (List ℕ)
finish_command fuel channel cla answer =
    if answer.sw1 == 0x61
    then get_response fuel channel cla answer.sw1 answer.sw2 answer.bytes
    else if bit_and answer.sw1 0xf0 == 0x90
    then close_with channel (ok answer.bytes)
    else close_with channel (err fail)

abbrev pub store_data : ℕ → List ℕ → List ℕ
store_data cla der_req = cla ∷ 0xe2 ∷ 0x91 ∷ 0x00 ∷ length der_req ∷ der_req

unfoldable pub send_command : ℕ → List ℕ → ℕ → List ℕ → Io (List ℕ)
send_command fuel channel cla der_req =
    if ltb 255 (length der_req) then close_with channel (err invalid_arg) else (do
      got ← try (transmit_apdu channel (store_data cla der_req))
      with_answer channel (λ e. e) (finish_command fuel channel cla) got)

-- `rounds` is the number of rounds for which the loop is followed.
unfoldable pub es10x_command : ℕ → (List ℕ → ℕ) → List ℕ → Io (List ℕ)
es10x_command rounds atoi der_req = do
  channel ← open_channel atoi
  send_command rounds channel (class_byte_for_channel atoi channel) der_req
