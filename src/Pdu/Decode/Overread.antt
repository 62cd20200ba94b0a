-- ===== src/Pdu/Decode/Overread.antt =====
-- Which messages make the text decoders read outside the 256 bytes of `buf`.
use esp32c3_sms_gateway.Prelude.{
  ℕ, zero, suc, ◌+◌, ◌-◌, ◌*◌, ◌≤◌, ◌<◌, ◌≡◌, refl, ◌⊎◌, inl, inr, arith, Bool, none, some, bit_and,
  List, [], ◌∷◌, length, get_elem?, get_elem?-lt, Bool-cases, ltb, leb,
}
use esp32c3_sms_gateway.Prelude.Bits.{◌>>>◌}
use esp32c3_sms_gateway.Prelude.Result.{ok, fault}
use esp32c3_sms_gateway.Pdu.Text.{join_septet, gsm7_septet, gsm7_loop, gsm7bit_decode}
use esp32c3_sms_gateway.Pdu.Decode.{eight_bit, eight_bit_len, copy_bytes, decode_text}

get_elem?-ge {ℓ} : {A : Type ℓ} (xs : List A) (i : ℕ) → length xs ≤ i → get_elem? xs i ≡ none
get_elem?-ge [] i h = refl
get_elem?-ge (x ∷ xs) zero h = absurd (omega arith)
get_elem?-ge (x ∷ xs) (suc i) h = get_elem?-ge xs i (omega arith)

-- A read ends in a value below the length, and in a fault from there on.
read_cases :
    (xs : List ℕ) (i : ℕ)
    → ((i < length xs) × ((x : ℕ) × (get_elem? xs i ≡ some x)))
      ⊎ ((length xs ≤ i) × (get_elem? xs i ≡ none))
read_cases xs i = elim (Bool-cases (ltb i (length xs))) [
  | inl below ↦ inl (ground arith, get_elem?-lt xs i (ground arith))
  | inr above ↦ inr (ground arith, get_elem?-ge xs i (ground arith))
]

copy_bytes_fault :
    (buf : List ℕ) (left i : ℕ) → 0 < left → length buf < i + left → copy_bytes buf left i ≡ fault
unfolding copy_bytes
copy_bytes_fault buf zero i pos h = absurd (omega arith)
copy_bytes_fault buf (suc zero) i pos h = ground (arith, get_elem?-ge buf i)
copy_bytes_fault buf (suc (suc left)) i pos h = elim (read_cases buf i) [
  | inl (below, (x, e)) ↦
      let rest = copy_bytes_fault buf (suc left) (i + 1) (omega arith) (omega arith) in ground arith
  | inr (above, e) ↦ ground arith
]

-- An 8-bit message whose user data header claims to reach past the payload makes `memcpy` read
-- outside `buf`: the negative length passes for a large one.
pub decode_text-overread :
    (buf : List ℕ) (base payload_len content_start user_data_len : ℕ) (has_udh : Bool)
    → length buf ≡ 256
    → payload_len < content_start
    → decode_text buf base payload_len content_start eight_bit has_udh user_data_len ≡ fault
unfolding decode_text eight_bit_len
decode_text-overread buf base payload_len content_start user_data_len has_udh n h =
    ground (arith, copy_bytes_fault buf 479 (base + content_start))

-- One round of the 7-bit decoder: a fault, or a septet whose bits all lie in the buffer.
septet_cases :
    (buf : List ℕ) (at bit : ℕ)
    → bit < 8
    → (gsm7_septet buf at bit ≡ fault)
      ⊎ ((8 * at + bit + 7 ≤ 8 * length buf) × ((c : ℕ) × (gsm7_septet buf at bit ≡ ok c)))
unfolding gsm7_septet
septet_cases buf at bit hb = elim (read_cases buf at) [
  | inr (above, e) ↦ inl (ground arith)
  | inl (below, (x, e)) ↦ elim (Bool-cases (ltb 1 bit)) [
    | inr one ↦ inr (ground arith, (bit_and (x >>> bit) 0x7f, ground arith))
    | inl two ↦ elim (read_cases buf (at + 1)) [
      | inl (below', (y, e')) ↦ inr (omega arith, (join_septet bit x y, ground arith))
      | inr (above', e') ↦ inl (ground arith)
    ]
  ]
]

gsm7_loop_fault :
    (buf : List ℕ) (left at bit : ℕ)
    → bit < 8
    → 0 < left
    → 8 * length buf < 8 * at + bit + 7 * left
    → gsm7_loop buf left at bit ≡ fault
unfolding gsm7_loop
gsm7_loop_fault buf zero at bit hb pos h = absurd (omega arith)
gsm7_loop_fault buf (suc zero) at bit hb pos h = elim (septet_cases buf at bit hb) [
  | inl e ↦ rw e
  | inr (enough, rest) ↦ absurd (omega arith)
]
gsm7_loop_fault buf (suc (suc left)) at bit hb pos h = elim (septet_cases buf at bit hb) [
  | inl e ↦ rw e
  | inr (enough, (c, e)) ↦ elim (Bool-cases (leb 8 (bit + 7))) [
    | inl carry ↦
        rw (e, carry)
          (rw (
            gsm7_loop_fault buf (suc left) (at + 1) (bit + 7 - 8) (omega arith) (omega arith)
              (ground arith)))
    | inr stay ↦
        rw (e, stay)
          (rw (
            gsm7_loop_fault buf (suc left) at (bit + 7) (ground arith) (omega arith) (omega arith)))
  ]
]

-- A user data length that claims more septets than there are bits in `buf` behind the start makes
-- the 7-bit decoder read outside `buf`: the length byte is not checked against the payload.
pub gsm7bit_decode-overread :
    (buf : List ℕ) (start septet_count : ℕ)
    → 0 < septet_count
    → 8 * length buf < 8 * start + 7 * septet_count
    → gsm7bit_decode buf start septet_count ≡ fault
unfolding gsm7bit_decode
gsm7bit_decode-overread buf start septet_count pos h =
    gsm7_loop_fault buf septet_count start 0 (omega arith) pos (omega arith)
