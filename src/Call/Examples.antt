-- ===== src/Call/Examples.antt =====
-- A concrete call.
use esp32c3_sms_gateway.Prelude.{true, some, ◌∷◌, ◌++◌, ◌≡◌, arith}
use esp32c3_sms_gateway.Prelude.Text.{ascii}
use esp32c3_sms_gateway.Call.{ringing, handle_call_ringing}
use esp32c3_sms_gateway.Call.Caller.{handle_call_ringing-number}

handle_call_ringing-number_example :
    handle_call_ringing true
      (ascii "12:00")
      (some (ascii "+CLIP: " ++ b'"' ∷ (ascii "10086" ++ b'"' ∷ ascii ",129")))
    ≡ some (record {
      sender = ascii "10086";
      message = ringing ++ ascii "10086";
      timestamp = ascii "12:00";
    })
handle_call_ringing-number_example =
    handle_call_ringing-number (ascii "+CLIP: ") (ascii "10086") (ascii ",129") (ascii "12:00")
      (ground arith) (ground arith) (omega arith) (omega arith)
