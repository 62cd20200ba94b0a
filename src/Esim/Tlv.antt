-- ===== src/Esim/Tlv.antt =====
-- `read_tlv`, `find_child_tag` and `append_tlv` of esim_manager.c. `size_t` has 32 bits here, and
-- the sums that the code compares with a length wrap around. `err fail` stands for `false`.
pub mod RoundTrip
pub mod Lookup
use esp32c3_sms_gateway.Prelude.{
  ℕ, zero, suc, ◌+◌, ◌-◌, ◌*◌, ◌/◌, ◌%◌, ◌^◌, bit_and, bit_or, Bool, true, false, not, ◌||◌, Option,
  none, some, List, [], ◌∷◌, ◌++◌, length, ltb, leb, ◌==◌, if◌then◌else◌,
}
use esp32c3_sms_gateway.Prelude.Bits.{◌<<<◌}
use esp32c3_sms_gateway.Prelude.Result.{
  fail, Result, ok, err, stuck, fault, fail_if, read, ◌>>=◌, ◌>>◌,
}

-- `tlv_node_t`; `value` is the place of the value in the data.
pub record TlvNode : Type 0 where
  pub tag : ℕ
  pub value : ℕ
  pub len : ℕ
  pub next_offset : ℕ

-- The loop over the further bytes of a tag; `left` is `len - pos`.
unfoldable pub tag_loop : List ℕ → ℕ → ℕ → ℕ → Result (ℕ × ℕ)
tag_loop bytes zero pos tag = err fail
tag_loop bytes (suc left) pos tag = do
  b ← read bytes pos
  let tag' = bit_or ((tag <<< 8) % 2 ^ 32) b
  let rest = tag_loop bytes left (pos + 1) tag'
  if bit_and b 0x80 == 0 then ok (tag', pos + 1) else rest

unfoldable pub length_loop : List ℕ → ℕ → ℕ → ℕ → Result (ℕ × ℕ)
length_loop bytes zero pos value_len = ok (value_len, pos)
length_loop bytes (suc left) pos value_len = do
  b ← read bytes pos
  length_loop bytes left (pos + 1) (bit_or ((value_len <<< 8) % 2 ^ 32) b)

unfoldable pub read_tag : List ℕ → ℕ → Result (ℕ × ℕ)
read_tag bytes offset = do
  tag ← read bytes offset
  if bit_and tag 0x1f == 0x1f
      then tag_loop bytes (length bytes - (offset + 1)) (offset + 1) tag
      else ok (tag, offset + 1)

unfoldable pub read_length : List ℕ → ℕ → Result (ℕ × ℕ)
read_length bytes pos = do
  fail_if (leb (length bytes) pos) fail
  len_byte ← read bytes pos
  if bit_and len_byte 0x80 == 0 then ok (len_byte, pos + 1) else (do
    let len_bytes = bit_and len_byte 0x7f
    fail_if
        (len_bytes == 0 || (ltb 4 len_bytes || ltb (length bytes) ((pos + 1 + len_bytes) % 2 ^ 32)))
        fail
    length_loop bytes len_bytes (pos + 1) 0)

unfoldable pub read_tlv : List ℕ → ℕ → Result TlvNode
read_tlv bytes offset = do
  fail_if (leb (length bytes) offset) fail
  (tag, pos) ← read_tag bytes offset
  (value_len, at) ← read_length bytes pos
  let next = (at + value_len) % 2 ^ 32
  fail_if (ltb (length bytes) next) fail
  ok (record { tag = tag; value = at; len = value_len; next_offset = next })

-- The loop from `pos` on; `none` is `false`. `stuck` is a loop that goes on when the fuel is used up.
unfoldable pub find_child_tag : ℕ → List ℕ → ℕ → ℕ → Result (Option TlvNode)
find_child_tag zero bytes pos tag = stuck
find_child_tag (suc fuel) bytes pos tag = elim (read_tlv bytes pos) [
  | ok node ↦
      let rest = find_child_tag fuel bytes node.next_offset tag in
      if node.tag == tag then ok (some node) else rest
  | err e ↦ ok none
  | fault ↦ fault
  | stuck ↦ stuck
]

unfoldable pub tag_bytes : ℕ → List ℕ
tag_bytes tag =
    (if ltb 0xffff tag then (tag / 2 ^ 16) % 256 ∷ [] else [])
    ++ ((if ltb 0xff tag then (tag / 2 ^ 8) % 256 ∷ [] else []) ++ (tag % 256 ∷ []))

unfoldable pub length_bytes : ℕ → List ℕ
length_bytes len =
    if ltb len 0x80
    then len ∷ []
    else if leb len 0xff
    then 0x81 ∷ len ∷ []
    else 0x82 ∷ (len / 256) % 256 ∷ len % 256 ∷ []

-- What `append_tag`, `append_length` and `append_tlv` write behind `out`.
unfoldable pub append_tag : List ℕ → ℕ → List ℕ
append_tag out tag = out ++ tag_bytes tag

unfoldable pub append_length : List ℕ → ℕ → List ℕ
append_length out len = out ++ length_bytes len

unfoldable pub append_tlv : List ℕ → ℕ → List ℕ → List ℕ
append_tlv out tag value = append_length (append_tag out tag) (length value) ++ value
