-- ===== src/Pdu/Decode/Conversion.antt =====
-- The hexadecimal text of an encoded SMS-DELIVER, with the noise that the modem may leave around
-- it, reaches the user data of the message.
use esp32c3_sms_gateway.Prelude.{
  ℕ, ◌+◌, ◌≤◌, ◌<◌, ◌≡◌, ap₂, ◌∙◌, arith, some, List, [], ◌∷◌, ◌++◌, length, drop, All,
}
use esp32c3_sms_gateway.Prelude.HexText.{hex_text, IsByte}
use esp32c3_sms_gateway.Pdu.Hex.RoundTrip.{EndsHex, IsBlank, hex_string_to_bytes-hex_text}
use esp32c3_sms_gateway.Pdu.Timestamp.RoundTrip.{date_text}
use esp32c3_sms_gateway.Pdu.Decode.{
  encoding_type, fill_buffer, decode_user_data, decode_buffer, pdu_decode,
}
use esp32c3_sms_gateway.Pdu.Decode.Deliver.{
  Header, IsHeader, header, header_len, sender_text, has_udh, decode_buffer-header, header-append,
  length-header,
}

-- Text in front of the PDU and behind it that does not change what is decoded.
pub record IsNoise (front back : List ℕ) : Type 0 where
  pub blanks : All IsBlank front
  pub ends : EndsHex back

-- The conversion of the text, and the guard behind it.
pub pdu_decode-hex_text :
    (stale front back bs : List ℕ)
    → IsNoise front back
    → All IsByte bs
    → 0 < length bs
    → length bs ≤ 256
    → pdu_decode stale (some (front ++ (hex_text bs ++ back)))
      ≡ decode_buffer (fill_buffer stale bs) (length bs)
unfolding pdu_decode
pdu_decode-hex_text stale front back [] noise h pos fits = absurd (omega arith)
pdu_decode-hex_text stale front back (b ∷ bs) noise h pos fits =
    ground (arith, hex_string_to_bytes-hex_text 256 front b bs back fits h noise.blanks noise.ends)

module _ (m : Header) (stale front back user : List ℕ) (wf : IsHeader m)
    (noise : IsNoise front back) (bytes : All IsByte (header m user))
    (fits : length (header m user) ≤ 256) (filled : 0 < length user) where
  -- The whole conversion: the decoder reaches the user data of the message, with some bytes of the
  -- stack behind it.
  pub pdu_decode-header :
      (more : List ℕ) × (pdu_decode stale (some (front ++ (hex_text (header m user) ++ back)))
        ≡ decode_user_data
            (header m (user ++ more))
            (header_len m + length user)
            (header_len m)
            (has_udh m)
            (encoding_type m.dcs)
            (sender_text m)
            (date_text m.sent))
  pdu_decode-header =
      let more = drop (length (header m user)) stale in
      (
        more,
        pdu_decode-hex_text stale front back (header m user) noise bytes
              (omega (arith, length-header m user)) fits
            ∙ ap₂ decode_buffer (header-append m user more) (length-header m user)
            ∙ decode_buffer-header m (user ++ more) (header_len m + length user) wf (omega arith),
      )
