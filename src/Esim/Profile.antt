-- ===== src/Esim/Profile.antt =====
-- The requests of `profile_operation` in esim_manager.c: the identifier of a profile, and the two
-- forms of a request around it. An array that is written is the list of its bytes.
pub mod Bounds
use esp32c3_sms_gateway.Prelude.{
  ℕ, zero, suc, ◌+◌, ◌-◌, ◌/◌, ◌%◌, bit_or, Bool, true, false, ◌&&◌, ◌||◌, List, [], ◌∷◌, ◌++◌,
  take, length, ltb, leb, ◌==◌, if◌then◌else◌,
}
use esp32c3_sms_gateway.Prelude.Bits.{◌<<<◌, u8}
use esp32c3_sms_gateway.Prelude.Result.{
  invalid_arg, invalid_size, fail, Result, ok, err, fault, stuck, fail_if, ◌>>◌, ◌>>=◌,
}
use esp32c3_sms_gateway.Prelude.Text.{is_digit}
use esp32c3_sms_gateway.Esim.Tlv.{append_tlv}
use esp32c3_sms_gateway.Esim.Bcd.{iccid_to_bcd}

abbrev pub is_hex_char : ℕ → Bool
is_hex_char c = is_digit c || ((leb b'a' c && leb c b'f') || (leb b'A' c && leb c b'F'))

unfoldable pub all_hex : List ℕ → Bool
all_hex [] = true
all_hex (c ∷ s) = is_hex_char c && all_hex s

unfoldable pub is_hex_string : List ℕ → Bool
is_hex_string s =
    if length s == 0 || (if length s % 2 == 0 then false else true) then false else all_hex s

-- `hex_nibble`, whose result is a `uint8_t`; `tolower` changes the letters from A to Z.
unfoldable pub hex_nibble : ℕ → ℕ
hex_nibble c =
    if is_digit c
    then c - b'0'
    else if leb b'A' c && leb c b'Z'
    then c + 32 - b'a' + 10
    else u8 (c + 256 - b'a' + 10)

unfoldable pub hex_to_bytes : List ℕ → ℕ → List ℕ
hex_to_bytes [] out_size = []
hex_to_bytes (c ∷ []) out_size = []
hex_to_bytes (c ∷ d ∷ s) zero = []
hex_to_bytes (c ∷ d ∷ s) (suc out_size) =
    u8 (bit_or (hex_nibble c <<< 4) (hex_nibble d)) ∷ hex_to_bytes s out_size

unfoldable pub build_profile_identifier : List ℕ → ℕ → Result (List ℕ)
build_profile_identifier id_text out_size = do
  fail_if (length id_text == 0) invalid_arg
  if length id_text == 32 && is_hex_string id_text
      then (do
        let out = append_tlv [] 0x4f (hex_to_bytes id_text 16)
        fail_if (ltb out_size (length out)) invalid_size
        ok out)
      else elim (iccid_to_bcd id_text 10) [
        | ok bcd ↦
            let out = append_tlv [] 0x5a bcd in
            if leb (length out) out_size then ok out else err invalid_size
        | err e ↦ err invalid_arg
        | fault ↦ fault
        | stuck ↦ stuck
      ]

unfoldable pub refresh_tlv : Bool → List ℕ
refresh_tlv refresh = append_tlv [] 0x81 ((if refresh then 0xff else 0x00) ∷ [])

-- The arrays that `send_profile_apdu_flavor` fills: `a0_tlv`, `payload` or `inner`, and `req`.
pub record Request : Type 0 where
  pub a0_tlv : List ℕ
  pub joined : List ℕ
  pub req : List ℕ

unfoldable pub standard_request : ℕ → List ℕ → Bool → Request
standard_request outer_tag id_tlv refresh =
    let a0 = append_tlv [] 0xa0 id_tlv in
    let payload = a0 ++ refresh_tlv refresh in
    record { a0_tlv = a0; joined = payload; req = append_tlv [] outer_tag payload }

unfoldable pub nested_request : ℕ → List ℕ → Bool → Request
nested_request outer_tag id_tlv refresh =
    let inner = id_tlv ++ refresh_tlv refresh in
    let a0 = append_tlv [] 0xa0 inner in
    record { a0_tlv = a0; joined = inner; req = append_tlv [] outer_tag a0 }
