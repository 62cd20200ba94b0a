-- ===== src/Esim/Examples.antt =====
-- Concrete items and numbers through the theorems on the eUICC codings.
use esp32c3_sms_gateway.Prelude.{ℕ, ◌≡◌, refl, arith, true, List, [], ◌∷◌, ◌++◌, length, drop}
use esp32c3_sms_gateway.Prelude.Result.{ok, stuck}
use esp32c3_sms_gateway.Prelude.Text.{ascii}
use esp32c3_sms_gateway.Esim.Tlv.{
  TlvNode, read_tlv, find_child_tag, append_tlv, append_tag, append_length, tag_bytes, length_bytes,
}
use esp32c3_sms_gateway.Esim.Tlv.RoundTrip.{IsTag, one, two, read_tlv-append_tlv}
use esp32c3_sms_gateway.Esim.Tlv.Lookup.{
  Item, written, first_item, wrapping, find_child_tag-first_item, find_child_tag-wrapping,
}
use esp32c3_sms_gateway.Esim.Profile.{standard_request, nested_request}
use esp32c3_sms_gateway.Esim.Profile.Bounds.{FitsRequest, requests-FitsRequest}
use esp32c3_sms_gateway.Esim.Bcd.{iccid_to_bcd, bcd_to_iccid, all_digits}
use esp32c3_sms_gateway.Esim.Bcd.RoundTrip.{bcd_to_iccid-iccid_to_bcd}

abbrev profile_tag : ℕ
profile_tag = 0xbf2d

profile-IsTag : IsTag profile_tag
profile-IsTag = two 0xbf 0x2d (omega arith) (omega arith) refl (omega arith) refl

iccid-IsTag : IsTag 0x5a
iccid-IsTag = one 0x5a (omega arith) refl

read_tlv-append_tlv_example :
    (node : TlvNode) × (read_tlv
        (append_tlv (1 ∷ 2 ∷ []) profile_tag (7 ∷ 8 ∷ 9 ∷ []) ++ (4 ∷ []))
        2
      ≡ ok node)
    × (node.tag ≡ profile_tag)
    × (node.len ≡ 3)
    × (node.next_offset ≡ length (append_tlv (1 ∷ 2 ∷ []) profile_tag (7 ∷ 8 ∷ 9 ∷ [])))
    × (drop node.value (append_tlv (1 ∷ 2 ∷ []) profile_tag (7 ∷ 8 ∷ 9 ∷ []) ++ (4 ∷ []))
        ≡ 7 ∷ 8 ∷ 9 ∷ 4 ∷ [])
unfolding append_tlv append_tag append_length tag_bytes length_bytes
read_tlv-append_tlv_example =
    read_tlv-append_tlv (1 ∷ 2 ∷ []) (7 ∷ 8 ∷ 9 ∷ []) (4 ∷ []) profile_tag profile-IsTag
      (omega arith) (omega arith)

abbrev two_items : List Item
two_items =
    record { tag = 0x5a; value = 1 ∷ 2 ∷ [] } ∷ record { tag = profile_tag; value = [] } ∷ []

find_child_tag-first_item_example :
    find_child_tag 3 (0x30 ∷ written two_items) 1 profile_tag
    ≡ ok (first_item 1 two_items profile_tag)
unfolding written tag_bytes length_bytes
find_child_tag-first_item_example =
    find_child_tag-first_item 3 (0x30 ∷ written two_items) 1 profile_tag two_items
      (
        record { known = iccid-IsTag; small = omega arith },
        (record { known = profile-IsTag; small = omega arith }, tt),
      )
      (omega arith) refl (omega arith)

find_child_tag-wrapping_example : find_child_tag 1000 (wrapping 0x5a (1 ∷ [])) 0 0x4f ≡ stuck
find_child_tag-wrapping_example =
    find_child_tag-wrapping 1000 0x5a 0x4f (1 ∷ []) refl refl (omega arith)

bcd_to_iccid-iccid_to_bcd_example :
    (bcd : List ℕ) × (iccid_to_bcd (ascii "89860012345678901234") 10 ≡ ok bcd)
    × (length bcd ≡ 10)
    × (bcd_to_iccid bcd 20 ≡ ascii "8986001234567890123")
unfolding all_digits
bcd_to_iccid-iccid_to_bcd_example =
    bcd_to_iccid-iccid_to_bcd (ascii "89860012345678901234") 19 refl (omega arith) (omega arith)

requests-FitsRequest_example :
    FitsRequest 32 40 (standard_request 0xbf31 (append_tlv [] 0x5a (1 ∷ 2 ∷ [])) true)
    × FitsRequest 45 40 (nested_request 0xbf31 (append_tlv [] 0x5a (1 ∷ 2 ∷ [])) true)
unfolding append_tlv append_tag append_length tag_bytes length_bytes
requests-FitsRequest_example =
    requests-FitsRequest 0xbf31 (append_tlv [] 0x5a (1 ∷ 2 ∷ [])) true (omega arith) (omega arith)
