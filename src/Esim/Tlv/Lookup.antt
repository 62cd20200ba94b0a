-- ===== src/Esim/Tlv/Lookup.antt =====
-- `find_child_tag` on a list of items, and on a length that wraps around.
use esp32c3_sms_gateway.Prelude.{
  ℕ, zero, suc, ◌+◌, ◌^◌, ◌≤◌, ◌<◌, ◌≡◌, refl, ap, arith, bit_and, true, false, Option, none, some,
  List, [], ◌∷◌, ◌++◌, length, length-append, drop, drop-length, drop_add_eq, length-drop, ◌==◌,
  All, leb, if◌then◌else◌,
}
use esp32c3_sms_gateway.Prelude.Result.{ok, err, fail, stuck}
use esp32c3_sms_gateway.Esim.Tlv.{
  TlvNode, read_tlv, read_tag, read_length, length_loop, find_child_tag, tag_bytes, length_bytes,
}
use esp32c3_sms_gateway.Esim.Tlv.RoundTrip.{IsTag, value_at, node_at, read_tlv-bytes}

pub record Item : Type 0 where
  pub tag : ℕ
  pub value : List ℕ

pub record IsItem (e : Item) : Type 0 where
  pub known : IsTag e.tag
  pub small : length e.value < 2 ^ 16

-- The items as `append_tlv` writes them one after the other.
unfoldable pub written : List Item → List ℕ
written [] = []
written (e ∷ es) = tag_bytes e.tag ++ (length_bytes (length e.value) ++ (e.value ++ written es))

-- The first item with the tag; the items start at `at`.
unfoldable pub first_item : ℕ → List Item → ℕ → Option TlvNode
first_item at [] tag = none
first_item at (e ∷ es) tag =
    if e.tag == tag
    then some (node_at at e.tag (length e.value))
    else first_item (value_at at e.tag (length e.value) + length e.value) es tag

read_tlv_end : (bytes : List ℕ) (at : ℕ) → drop at bytes ≡ [] → read_tlv bytes at ≡ err fail
unfolding read_tlv
read_tlv_end bytes at e =
    let short : length bytes ≤ at = omega (arith, length-drop at bytes, ap length e) in
    let out : leb (length bytes) at ≡ true = ground arith in rw (out, read_tlv) refl

-- On items with tags of one or two bytes and values of at most 65535 bytes, the search ends
-- after at most one step for each item and one more, and finds the first item with the tag.
pub find_child_tag-first_item :
    (fuel : ℕ) (bytes : List ℕ) (at tag : ℕ) (es : List Item)
    → All IsItem es
    → length bytes < 2 ^ 32
    → drop at bytes ≡ written es
    → length es < fuel
    → find_child_tag fuel bytes at tag ≡ ok (first_item at es tag)
unfolding find_child_tag first_item written
find_child_tag-first_item zero bytes at tag es h room e enough = absurd (omega arith)
find_child_tag-first_item (suc fuel) bytes at tag [] h room e enough =
    rw (read_tlv_end bytes at e, find_child_tag) refl
find_child_tag-first_item (suc fuel) bytes at tag (i ∷ es) (h, hs) room e enough =
    let (found, rest) =
      read_tlv-bytes bytes at i.tag (length i.value) (i.value ++ written es) room h.known h.small
        (omega (arith, length-append i.value (written es))) e in
    let behind =
      drop_add_eq (value_at at i.tag (length i.value)) (length i.value) bytes rest
        (drop-length i.value (written es)) in
    let later =
      find_child_tag-first_item fuel bytes (value_at at i.tag (length i.value) + length i.value) tag
        es hs room behind (omega arith) in
    rw (found, find_child_tag) (ground (arith, later))

-- A length of four bytes that makes the next offset wrap around to 0.
abbrev pub wrapping : ℕ → List ℕ → List ℕ
wrapping t rest = t ∷ 0x84 ∷ 0xff ∷ 0xff ∷ 0xff ∷ 0xfa ∷ rest

read_tlv-wrapping :
    (t : ℕ) (rest : List ℕ)
    → bit_and t 0x1f == 0x1f ≡ false
    → length (wrapping t rest) < 2 ^ 32
    → read_tlv (wrapping t rest) 0
      ≡ ok (record { tag = t; value = 6; len = 0xffff_fffa; next_offset = 0 })
unfolding read_tlv read_tag read_length length_loop
read_tlv-wrapping t rest plain room = ground (arith, plain)

-- The search for another tag does not end on data that starts with a one-byte tag and that length:
-- no number of steps is enough.
pub find_child_tag-wrapping :
    (fuel : ℕ) (t tag : ℕ) (rest : List ℕ)
    → bit_and t 0x1f == 0x1f ≡ false
    → t == tag ≡ false
    → length (wrapping t rest) < 2 ^ 32
    → find_child_tag fuel (wrapping t rest) 0 tag ≡ stuck
unfolding find_child_tag
find_child_tag-wrapping zero t tag rest plain other room = refl
find_child_tag-wrapping (suc fuel) t tag rest plain other room =
    rw (read_tlv-wrapping t rest plain room, other, find_child_tag)
      (find_child_tag-wrapping fuel t tag rest plain other room)
