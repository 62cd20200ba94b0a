-- ===== src/Modem/Examples.antt =====
-- Lines, handlers and answers on which the theorems about the modem driver are applied.
use esp32c3_sms_gateway.Prelude.{ℕ, ◌≡◌, ◌≢◌, refl, arith, none, [], ◌∷◌, ◌++◌}
use esp32c3_sms_gateway.Prelude.Result.{ok, err, no_mem}
use esp32c3_sms_gateway.Prelude.Text.{ascii, starts, find_str}
use esp32c3_sms_gateway.Modem.Dialogue.{Reply}
use esp32c3_sms_gateway.Modem.Lines.{urc_line, receive, skip_blank}
use esp32c3_sms_gateway.Modem.Lines.Direct.{IsChar, direct_header, receive-direct}
use esp32c3_sms_gateway.Modem.Handlers.{
  modem_register_urc_handler, modem_unregister_urc_handler, dispatch_urc_to_handlers,
}
use esp32c3_sms_gateway.Modem.Handlers.Compact.{
  table, without, removed, modem_register_urc_handler-table,
}
use esp32c3_sms_gateway.Modem.Answers.{modem_read_sms_pdu}
use esp32c3_sms_gateway.Modem.Answers.StoredPdu.{modem_read_sms_pdu-text}

line-IsChar : (c : ℕ) → c ≢ b'>' → c ≢ 10 → c ≢ 0 → IsChar c
line-IsChar c a b d = ((a, b), d)

receive-direct_example :
    let (last, signals) =
      receive
        ((ascii "+CMT:" ++ (b'4' ∷ 13 ∷ [])) ++ 10 ∷ ((b'0' ∷ 13 ∷ []) ++ 10 ∷ []))
        (record { line = []; pending = none; shared = none }) in
    (signals
      ≡ urc_line (direct_header (b'4' ∷ 13 ∷ []) ++ 13 ∷ 10 ∷ ((b'0' ∷ 13 ∷ []) ++ 10 ∷ [])) ∷ [])
    × (last.line ≡ [])
    × (last.pending ≡ none)
unfolding find_str starts skip_blank
receive-direct_example =
    receive-direct (b'4' ∷ 13 ∷ []) (b'0' ∷ 13 ∷ []) none none
      (
        line-IsChar b'4' (ground arith) (ground arith) (ground arith),
        (line-IsChar 13 (ground arith) (ground arith) (ground arith), tt),
      )
      (
        line-IsChar b'0' (ground arith) (ground arith) (ground arith),
        (line-IsChar 13 (ground arith) (ground arith) (ground arith), tt),
      )
      (omega arith) (omega arith) refl (record { not_ok = refl; not_error = refl; not_urc = refl })

modem_register_urc_handler-table_example :
    (modem_register_urc_handler 7 (table (5 ∷ 6 ∷ []) 2) ≡ ok (table ((5 ∷ 6 ∷ []) ++ 7 ∷ []) 1))
    × (modem_register_urc_handler 7 (table (5 ∷ 6 ∷ []) 0) ≡ err no_mem)
    × (modem_unregister_urc_handler 7 (table (5 ∷ 6 ∷ []) 1) ≡ removed (without 7 (5 ∷ 6 ∷ [])) 1)
    × (dispatch_urc_to_handlers (table (5 ∷ 6 ∷ []) 1) ≡ 5 ∷ 6 ∷ [])
modem_register_urc_handler-table_example = modem_register_urc_handler-table 7 (5 ∷ 6 ∷ []) 1

abbrev stored_reply : Reply
stored_reply = record {
  status = none;
  text = ascii "+CMGR:" ++ ((b'1' ∷ 13 ∷ []) ++ 10 ∷ ((b'0' ∷ b'8' ∷ []) ++ 13 ∷ 10 ∷ ascii "OK"));
}

modem_read_sms_pdu-text_example : modem_read_sms_pdu stored_reply 512 ≡ ok (b'0' ∷ b'8' ∷ [])
modem_read_sms_pdu-text_example =
    modem_read_sms_pdu-text stored_reply 512 (b'1' ∷ 13 ∷ []) (b'0' ∷ b'8' ∷ []) (10 ∷ ascii "OK")
      refl refl (ground arith, (ground arith, tt))
      ((ground arith, ground arith, ground arith), ((ground arith, ground arith, ground arith), tt))
      (omega arith) (omega arith)
