-- ===== src/Esim/Operation/Answers.antt =====
-- What the code makes of the result code of a profile operation, which the card gives in an item
-- with the tag 0x80.
use esp32c3_sms_gateway.Prelude.{ℕ, ◌≡◌, refl, none, some, List, [], ◌∷◌, ◌==◌, if◌then◌else◌}
use esp32c3_sms_gateway.Prelude.Bits.{zero-bit_or}
use esp32c3_sms_gateway.Prelude.Result.{fail, ok}
use esp32c3_sms_gateway.Esim.Tlv.{
  read_tlv, read_tag, read_length, tag_loop, find_child_tag, append_tlv, append_tag, append_length,
  tag_bytes, length_bytes,
}
use esp32c3_sms_gateway.Esim.Operation.{value_number, flavor_answer, delete_answer}

-- The answer to an operation with the outer tag, as the card codes it.
unfoldable pub result_answer : ℕ → ℕ → List ℕ
unfolding append_tlv
result_answer outer_tag code = append_tlv [] outer_tag (append_tlv [] 0x80 (code ∷ []))

pub flavor_answer-result_answer :
    (code : ℕ)
    → flavor_answer 0xbf31 (result_answer 0xbf31 code) ≡ ok (record { code = none; sw = some 0 })
unfolding flavor_answer result_answer append_tlv append_tag append_length tag_bytes length_bytes
    read_tlv read_tag read_length tag_loop find_child_tag
flavor_answer-result_answer code = refl

delete_answer-result_answer :
    (code : ℕ)
    → delete_answer (result_answer 0xbf33 code)
      ≡ ok (record { code = if code == 0 then none else some fail; sw = some code })
unfolding delete_answer value_number result_answer append_tlv append_tag append_length tag_bytes
    length_bytes read_tlv read_tag read_length tag_loop find_child_tag
delete_answer-result_answer code = rw (zero-bit_or code) refl
