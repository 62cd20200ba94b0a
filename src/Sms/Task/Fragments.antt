-- ===== src/Sms/Task/Fragments.antt =====
-- One pass of the task that brings a fragment of a long message, and its sweep.
use esp32c3_sms_gateway.Prelude.{
  ℕ, ◌<◌, ◌≡◌, refl, ap, ◌∙◌, true, false, Option, some, List, [], ◌∷◌, ◌++◌, All,
}
use esp32c3_sms_gateway.Prelude.Result.{ok}
use esp32c3_sms_gateway.Pdu.Decode.{DecodedSms, pdu_decode}
use esp32c3_sms_gateway.Sms.Blacklist.{is_blacklisted}
use esp32c3_sms_gateway.Sms.Concat.{Slot, Push, receive_fragment}
use esp32c3_sms_gateway.Sms.Concat.Reassembly.{LongMessage, fragment_of}
use esp32c3_sms_gateway.Sms.Task.{
  SmsEvent, Settings, calls_of, fragment, is_fragment, pdu_of, handle_sms, handle_decoded,
  handle_event, elapsed_ms, is_expired, expire, sweep, serve, arrives, nothing, pass,
}

-- No slot has waited too long.
abbrev pub IsCalm : ℕ → List Slot → Type 0
IsCalm later = All (λ s. is_expired later s ≡ false)

pub sweep-calm : (later : ℕ) (buf : List Slot) → IsCalm later buf → sweep later buf ≡ ok (buf, [])
unfolding sweep expire
sweep-calm later [] h = refl
sweep-calm later (s ∷ buf) (h, hs) = rw (h, sweep-calm later buf hs) refl

-- A sweep less than 30 seconds after the first part, when no other message is due either.
abbrev pub IsInTime : List Slot → ℕ → ℕ → Type 0
IsInTime buf first later = (elapsed_ms later first < 30000) × IsCalm later buf

pub pass-nothing :
    (settings : Settings) (stale : List ℕ) (later : ℕ) (buf : List Slot)
    → IsCalm later buf
    → pass settings stale (nothing later) buf ≡ ok (buf, [])
unfolding pass
pass-nothing settings stale later buf h = sweep-calm later buf h

module _ (settings : Settings) (stale : List ℕ) (m : LongMessage) where
  -- The event brings part `j` of the message.
  pub record IsPart (evt : SmsEvent) (answer : Option (List ℕ)) (now j : ℕ) : Type 0 where
    pub pdu_hex : List ℕ
    pub sms : DecodedSms
    pub read : pdu_of evt answer ≡ some pdu_hex
    pub decodes : pdu_decode stale (some pdu_hex) ≡ ok sms
    pub numbered : is_fragment sms ≡ true
    pub same : fragment evt sms ≡ fragment_of m j
    pub at : now ≡ m.arrival j

  handle_event-fragment :
      (evt : SmsEvent) (answer : Option (List ℕ)) (now j : ℕ) (buf buf' : List Slot)
      (done : Option Push)
      → IsPart evt answer now j
      → is_blacklisted settings.admin_phone settings.black_list m.sender ≡ false
      → receive_fragment (fragment_of m j) (m.arrival j) buf ≡ ok (buf', done)
      → handle_event settings stale evt answer now buf ≡ ok (buf', calls_of done, true)
  unfolding handle_event handle_decoded handle_sms
  handle_event-fragment evt answer now j buf buf' done h allowed received =
      let sender : h.sms.sender ≡ m.sender = ap (λ f. f.sender) h.same in
      let tested : is_blacklisted settings.admin_phone settings.black_list h.sms.sender ≡ false =
        ap (is_blacklisted settings.admin_phone settings.black_list) sender ∙ allowed in
      let stored : receive_fragment (fragment evt h.sms) now buf ≡ ok (buf', done) =
        ap (λ f. receive_fragment f now buf) h.same
        ∙ ap (λ t. receive_fragment (fragment_of m j) t buf) h.at
        ∙ received in
      rw (h.read, h.decodes, tested, h.numbered, stored, handle_event) refl

  pub pass-fragment :
      (evt : SmsEvent) (answer : Option (List ℕ)) (now later j : ℕ) (buf buf' : List Slot)
      (done : Option Push)
      → IsPart evt answer now j
      → is_blacklisted settings.admin_phone settings.black_list m.sender ≡ false
      → receive_fragment (fragment_of m j) (m.arrival j) buf ≡ ok (buf', done)
      → IsCalm later buf'
      → pass settings stale (arrives evt answer now later) buf ≡ ok (buf', calls_of done ++ [])
  unfolding pass serve
  pass-fragment evt answer now later j buf buf' done h allowed received calm =
      let handled = handle_event-fragment evt answer now j buf buf' done h allowed received in
      rw (handled, sweep-calm later buf' calm) refl
