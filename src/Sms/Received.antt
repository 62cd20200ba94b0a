-- ===== src/Sms/Received.antt =====
-- A direct message from the bytes on the UART to the push service: the loop of the modem driver, the
-- handler of message notifications and the task of the SMS processor, one after the other.
pub mod Notification
use esp32c3_sms_gateway.Prelude.{
  ℕ, ◌/◌, ◌%◌, ◌≤◌, ◌<◌, ◌≡◌, ◌≢◌, refl, sym, ap, ◌∙◌, inl, inr, arith, true, false, Option, none,
  some, List, [], ◌∷◌, ◌++◌, length, length-append, take, take_all, All, All-append,
}
use esp32c3_sms_gateway.Prelude.HexText.{hex_digit, hex_text, IsByte, length-hex_text}
use esp32c3_sms_gateway.Prelude.Result.{ok}
use esp32c3_sms_gateway.Prelude.Text.{ascii, c_str, copy_str, starts, find_str}
use esp32c3_sms_gateway.Modem.Lines.{
  Shared, urc_line, has, skip_blank, receive, sms_received, process_urc_line,
}
use esp32c3_sms_gateway.Modem.Lines.Direct.{IsChar, IsBody, direct_header, receive-direct}
use esp32c3_sms_gateway.Pdu.Decode.Conversion.{IsNoise}
use esp32c3_sms_gateway.Pdu.Decode.Deliver.{length-header, sender_text}
use esp32c3_sms_gateway.Sms.Blacklist.{is_blacklisted}
use esp32c3_sms_gateway.Sms.Concat.{Slot}
use esp32c3_sms_gateway.Sms.Task.{SmsEvent, Settings, send_with_ack, handle_event}
use esp32c3_sms_gateway.Sms.Task.Events.{
  SevenBitMessage, IsMessage, message_bytes, user_data, push_of, handle_event-message,
}
use esp32c3_sms_gateway.Sms.Urc.{direct_event, urc_event}
use esp32c3_sms_gateway.Sms.Urc.RoundTrip.{IsInLine, urc_event-direct}
use mathlib.Core.List.{append-nil, append_assoc}
use esp32c3_sms_gateway.Sms.Received.Notification.{
  IsHexDigit, hex_text-IsHexDigit, All-weaken, IsInfo, pdu_line, notification, has-none,
  notification-plain, other_texts, process_urc_line-direct, hex_text-IsBody, notification-lines,
  around-IsNoise, event_text, hex-IsChar, return-IsChar, first_line,
}

module _ (m : SevenBitMessage) (one : IsMessage m) (small : length (message_bytes m) ≤ 254) where
  some_bytes : 0 < length (message_bytes m)
  some_bytes = omega (arith, length-header m.head (user_data m))

  -- The handler of notifications, and the task on its event.
  notification-pushed :
      (settings : Settings) (atoi : List ℕ → ℕ) (stale info : List ℕ) (now : ℕ) (buf : List Slot)
      → All IsInfo info
      → is_blacklisted settings.admin_phone settings.black_list (sender_text m.head) ≡ false
      → (evt : SmsEvent) × (urc_event atoi (notification info m) ≡ some evt)
        × (handle_event settings stale evt none now buf
            ≡ ok (buf, send_with_ack (push_of (direct_event []) m) ∷ [], true))
  notification-pushed settings atoi stale info now buf h allowed =
      let hex = hex_text (message_bytes m) in
      let text = (13 ∷ 10 ∷ []) ++ hex in
      let lines = notification-lines info m in
      let digits = hex_text-IsHexDigit (message_bytes m) one.bytes in
      let (stored, direct, coded) = other_texts _ (notification-plain info m h one.bytes) in
      let header = append_assoc info (10 ∷ []) (13 ∷ 10 ∷ (pdu_line m ++ 10 ∷ [])) in
      (
        direct_event text,
        rw lines (
            urc_event-direct atoi (ascii "+CMT:" ++ info) (13 ∷ 10 ∷ []) hex (13 ∷ 10 ∷ []) _
              (first_line info h)
              (ap (find_str (ascii "+CMTI:")) (sym lines ∙ ap (λ t. ascii "+CMT:" ++ t) header)
                ∙ stored)
              (ap (find_str (ascii "+CMT:")) (sym lines ∙ ap (λ t. ascii "+CMT:" ++ t) header)
                ∙ direct)
              (All-weaken IsHexDigit IsInLine hex (λ c k. ground (arith, k)) digits)
              (refl, (refl, tt)) (omega (arith, length-hex_text (message_bytes m), some_bytes))
              (omega (arith, length-hex_text (message_bytes m), small))),
        handle_event-message settings stale (13 ∷ 10 ∷ []) [] (direct_event text) none m now buf one
            around-IsNoise (ap some (event_text (message_bytes m) one.bytes small)) allowed,
      )

  -- Where no line is begun: the two lines in which the modem delivers a 7-bit message of at most 254
  -- bytes, the second ending in a carriage return too, the first with at most 121 characters behind "+CMT:" and none of them a NUL, a prompt or a
  -- plus sign, become one notification for the handlers of messages. Its event makes one call, if the
  -- sender is not on the black list: the push of the sender, the text up to its first septet 0 (an at
  -- sign) and the time stamp, with no stored message to delete.
  pub receive-handle_event :
      (settings : Settings) (atoi : List ℕ → ℕ) (stale info : List ℕ) (pending : Option (List ℕ))
      (shared : Option Shared) (now : ℕ) (buf : List Slot)
      → All IsInfo info
      → length info ≤ 121
      → is_blacklisted settings.admin_phone settings.black_list (sender_text m.head) ≡ false
      → let (last, signals) =
          receive
            ((ascii "+CMT:" ++ info) ++ 10 ∷ (pdu_line m ++ 10 ∷ []))
            (record { line = []; pending = pending; shared = shared }) in
        (payload : List ℕ) × ((evt : SmsEvent) × ((signals ≡ urc_line payload ∷ [])
            × (process_urc_line payload ≡ some sms_received)
            × (urc_event atoi payload ≡ some evt)
            × (handle_event settings stale evt none now buf
                ≡ ok (buf, send_with_ack (push_of (direct_event []) m) ∷ [], true))))
  receive-handle_event settings atoi stale info pending shared now buf h short allowed =
      let hex = hex_text (message_bytes m) in
      let (evt, noticed, pushed) = notification-pushed settings atoi stale info now buf h allowed in
      let plain =
        All-append (λ c. c ≢ b'+') info (10 ∷ [])
          (All-weaken IsInfo (λ c. c ≢ b'+') info (λ c k. k.1) h) ((λ e. omega (arith, e)), tt) in
      let body : IsBody (pdu_line m ++ 10 ∷ []) = rw (append_assoc hex (13 ∷ []) (10 ∷ [])) (
        hex_text-IsBody (message_bytes m) (13 ∷ 10 ∷ []) some_bytes one.bytes
          ((λ e. omega (arith, e)), ((λ e. omega (arith, e)), tt))) in
      let run =
        receive-direct info (pdu_line m) pending shared
          (All-weaken IsInfo IsChar info (λ c k. k.0) h)
          (All-append IsChar hex (13 ∷ [])
            (All-weaken IsHexDigit IsChar hex (λ c k. hex-IsChar c k)
              (hex_text-IsHexDigit (message_bytes m) one.bytes))
            (return-IsChar, tt))
          short
          (omega (arith, small, length-hex_text (message_bytes m), length-append hex (13 ∷ [])))
          (has-none (ascii "+CME ERROR:") (direct_header info)
            (other_texts (info ++ 10 ∷ []) plain).2)
          body in
      (notification info m, (evt, (run.0, process_urc_line-direct _, noticed, pushed)))
