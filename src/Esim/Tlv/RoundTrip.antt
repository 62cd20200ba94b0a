-- ===== src/Esim/Tlv/RoundTrip.antt =====
-- `read_tlv` reads back what `append_tlv` writes.
use esp32c3_sms_gateway.Prelude.{
  ℕ, suc, ◌+◌, ◌*◌, ◌/◌, ◌%◌, ◌^◌, ◌≤◌, ◌<◌, ◌≡◌, refl, ap, ◌∙◌, arith, bit_and, true, false,
  Bool-cases, inl, inr, some, List, [], ◌∷◌, ◌++◌, length, length-append, drop, drop-length,
  drop-suc, drop_add_eq, length-drop, ◌-◌, get_elem?, get_elem?-drop, ltb, leb, tests, ◌==◌,
}
use esp32c3_sms_gateway.Prelude.Bits.{short_mask, shl-bit_or, zero-bit_or}
use esp32c3_sms_gateway.Prelude.Result.{ok}
use esp32c3_sms_gateway.Esim.Tlv.{
  TlvNode, tag_loop, length_loop, read_tag, read_length, read_tlv, tag_bytes, length_bytes,
  append_tag, append_length, append_tlv,
}
use native.Mathlib.Numerals.{add-one, add-two}
use mathlib.Core.List.{append_assoc}

-- A tag that the coding can carry: one byte, or two with the mark in the first.
pub data IsTag : ℕ → Type 0 where
  one : (t : ℕ) → t < 256 → bit_and t 0x1f == 0x1f ≡ false → IsTag t
  two :
      (t u : ℕ)
      → 0 < t
      → t < 256
      → bit_and t 0x1f == 0x1f ≡ true
      → u < 128
      → bit_and u 0x80 ≡ 0
      → IsTag (t * 256 + u)

tag_bytes_one : (t : ℕ) → t < 256 → tag_bytes t ≡ t ∷ []
unfolding tag_bytes
tag_bytes_one t h = ground arith

tag_bytes_two : (t u : ℕ) → 0 < t → t < 256 → u < 128 → tag_bytes (t * 256 + u) ≡ t ∷ u ∷ []
unfolding tag_bytes
tag_bytes_two t u positive small below = ground arith

tag_loop_last :
    (bytes : List ℕ) (left pos tag u : ℕ)
    → get_elem? bytes pos ≡ some u
    → bit_and u 0x80 ≡ 0
    → tag < 256
    → u < 128
    → tag_loop bytes (suc left) pos tag ≡ ok (tag * 256 + u, pos + 1)
unfolding tag_loop
tag_loop_last bytes left pos tag u e last small below =
    ground (arith, e, last, shl-bit_or 8 tag u (omega arith))

read_tag-bytes :
    (bytes : List ℕ) (at tag : ℕ) (rest : List ℕ)
    → IsTag tag
    → drop at bytes ≡ tag_bytes tag ++ rest
    → (read_tag bytes at ≡ ok (tag, at + length (tag_bytes tag)))
      × (drop (at + length (tag_bytes tag)) bytes ≡ rest)
unfolding read_tag
read_tag-bytes bytes at tag rest (one t small plain) e =
    let e0 : drop at bytes ≡ t ∷ rest = e ∙ rw (tag_bytes_one t small) refl in
    rw (tag_bytes_one t small)
      (ground (arith, get_elem?-drop at bytes e0, plain), rw add-one (drop-suc at bytes e0))
read_tag-bytes bytes at tag rest (two t u positive small marked below last) e =
    let e0 : drop at bytes ≡ t ∷ u ∷ rest = e ∙ rw (tag_bytes_two t u positive small below) refl in
    let e1 : drop (at + 1) bytes ≡ u ∷ rest = rw add-one (drop-suc at bytes e0) in
    let left : length bytes - (at + 1) ≡ suc (length rest) =
      omega (arith, length-drop (at + 1) bytes, ap length e1) in
    let loop =
      tag_loop_last bytes (length rest) (at + 1) t u (get_elem?-drop (at + 1) bytes e1) last small
        below in
    rw (tag_bytes_two t u positive small below) (
      ground (arith, get_elem?-drop at bytes e0, marked, left, loop),
      rw add-two (drop-suc (suc at) bytes (drop-suc at bytes e0)),
    )

length_loop_one :
    (bytes : List ℕ) (pos n : ℕ)
    → get_elem? bytes pos ≡ some n
    → length_loop bytes 1 pos 0 ≡ ok (n, pos + 1)
unfolding length_loop
length_loop_one bytes pos n e = ground (arith, e, zero-bit_or n)

length_loop_two :
    (bytes : List ℕ) (pos hi lo : ℕ)
    → get_elem? bytes pos ≡ some hi
    → get_elem? bytes (pos + 1) ≡ some lo
    → hi < 256
    → lo < 256
    → length_loop bytes 2 pos 0 ≡ ok (hi * 256 + lo, pos + 2)
unfolding length_loop
length_loop_two bytes pos hi lo e e' small small' =
    ground (arith, e, e', zero-bit_or hi, shl-bit_or 8 hi lo (omega arith))

module _ (bytes : List ℕ) (at n : ℕ) (rest : List ℕ) (room : length bytes < 2 ^ 32) where
  abbrev ReadsLength : List ℕ → Type 0
  ReadsLength code =
      (read_length bytes at ≡ ok (n, at + length code)) × (drop (at + length code) bytes ≡ rest)

  read_length_short : n < 128 → drop at bytes ≡ n ∷ rest → ReadsLength (n ∷ [])
  unfolding read_length
  read_length_short small e =
      let here = get_elem?-drop at bytes e in
      let long : length bytes - at ≡ 1 + length rest =
        omega (arith, length-drop at bytes, ap length e) in
      (ground (arith, here, short_mask n small, long), rw add-one (drop-suc at bytes e))

  read_length_byte : n < 256 → drop at bytes ≡ 0x81 ∷ n ∷ rest → ReadsLength (0x81 ∷ n ∷ [])
  unfolding read_length
  read_length_byte small e =
      let here = get_elem?-drop at bytes e in
      let e1 : drop (at + 1) bytes ≡ n ∷ rest = rw add-one (drop-suc at bytes e) in
      let long : length bytes - at ≡ 2 + length rest =
        omega (arith, length-drop at bytes, ap length e) in
      (
        ground (
          arith,
          here,
          long,
          length_loop_one bytes (at + 1) n (get_elem?-drop (at + 1) bytes e1),
        ),
        rw add-two (drop-suc (suc at) bytes (drop-suc at bytes e)),
      )

  read_length_word :
      n < 2 ^ 16
      → drop at bytes ≡ 0x82 ∷ n / 256 ∷ n % 256 ∷ rest
      → ReadsLength (0x82 ∷ n / 256 ∷ n % 256 ∷ [])
  unfolding read_length
  read_length_word small e =
      let here = get_elem?-drop at bytes e in
      let e1 : drop (at + 1) bytes ≡ n / 256 ∷ n % 256 ∷ rest = rw add-one (drop-suc at bytes e) in
      let e2 : drop (at + 1 + 1) bytes ≡ n % 256 ∷ rest = drop_add_eq (at + 1) 1 bytes e1 refl in
      let long : length bytes - at ≡ 3 + length rest =
        omega (arith, length-drop at bytes, ap length e) in
      let loop =
        length_loop_two bytes (at + 1) (n / 256) (n % 256) (get_elem?-drop (at + 1) bytes e1)
          (get_elem?-drop (at + 1 + 1) bytes e2) (omega arith) (omega arith) in
      (ground (arith, here, long, loop), drop_add_eq at 3 bytes e refl)

  pub read_length-bytes :
      n < 2 ^ 16 → drop at bytes ≡ length_bytes n ++ rest → ReadsLength (length_bytes n)
  unfolding length_bytes
  read_length-bytes small e = elim (Bool-cases (ltb n 0x80)) [
    | inl short ↦
        let code : length_bytes n ≡ n ∷ [] = ground arith in
        rw code (read_length_short (omega (tests, short)) (e ∙ rw code refl))
    | inr long ↦ elim (Bool-cases (leb n 0xff)) [
      | inl byte ↦
          let code : length_bytes n ≡ 0x81 ∷ n ∷ [] = ground arith in
          rw code (read_length_byte (omega (tests, byte)) (e ∙ rw code refl))
      | inr word ↦
          let code : length_bytes n ≡ 0x82 ∷ n / 256 ∷ n % 256 ∷ [] = ground arith in
          rw code (read_length_word small (e ∙ rw code refl))
    ]
  ]

length-tag_bytes : (tag : ℕ) → 0 < length (tag_bytes tag)
unfolding tag_bytes
length-tag_bytes tag = ground arith

-- The place of the value of an item that starts at `at`.
abbrev pub value_at : ℕ → ℕ → ℕ → ℕ
value_at at tag n = at + length (tag_bytes tag) + length (length_bytes n)

abbrev pub node_at : ℕ → ℕ → ℕ → TlvNode
node_at at tag n = record {
  tag = tag;
  value = value_at at tag n;
  len = n;
  next_offset = value_at at tag n + n;
}

pub read_tlv-bytes :
    (bytes : List ℕ) (at tag n : ℕ) (rest : List ℕ)
    → length bytes < 2 ^ 32
    → IsTag tag
    → n < 2 ^ 16
    → n ≤ length rest
    → drop at bytes ≡ tag_bytes tag ++ (length_bytes n ++ rest)
    → (read_tlv bytes at ≡ ok (node_at at tag n)) × (drop (value_at at tag n) bytes ≡ rest)
unfolding read_tlv
read_tlv-bytes bytes at tag n rest room known small enough e =
    let (tagged, after_tag) = read_tag-bytes bytes at tag (length_bytes n ++ rest) known e in
    let (measured, after_length) =
      read_length-bytes bytes (at + length (tag_bytes tag)) n rest room small after_tag in
    let code = length-append (tag_bytes tag) (length_bytes n ++ rest) in
    let whole : value_at at tag n + length rest ≡ length bytes = omega (
      arith,
      length-drop at bytes,
      ap length e,
      code,
      length-append (length_bytes n) rest,
      length-tag_bytes tag,
    ) in
    let inside : value_at at tag n + n ≤ length bytes = omega (arith, whole) in
    let no_wrap : (value_at at tag n + n) % 2 ^ 32 ≡ value_at at tag n + n =
      omega (arith, inside) in
    let starts : at < length bytes = omega (arith, whole, length-tag_bytes tag) in
    (ground (arith, starts, tagged, measured, no_wrap, inside), after_length)

-- An item that `append_tlv` wrote behind other bytes is read back at its place: the tag, the length,
-- the value, and the place behind it, whatever follows. The tag has one or two bytes, the value at
-- most 65535, and everything together stays below 2^32.
pub read_tlv-append_tlv :
    (out value back : List ℕ) (tag : ℕ)
    → IsTag tag
    → length value < 2 ^ 16
    → length (append_tlv out tag value ++ back) < 2 ^ 32
    → (node : TlvNode) × (read_tlv (append_tlv out tag value ++ back) (length out) ≡ ok node)
      × (node.tag ≡ tag)
      × (node.len ≡ length value)
      × (node.next_offset ≡ length (append_tlv out tag value))
      × (drop node.value (append_tlv out tag value ++ back) ≡ value ++ back)
unfolding append_tlv append_tag append_length
read_tlv-append_tlv out value back tag known small room =
    let n = length value in
    let placed : append_tlv out tag value ++ back
        ≡ out ++ (tag_bytes tag ++ (length_bytes n ++ (value ++ back))) =
      simp append_assoc in
    let at_item = ap (drop (length out)) placed ∙ drop-length out _ in
    let (found, rest) =
      read_tlv-bytes (append_tlv out tag value ++ back) (length out) tag n (value ++ back) room
        known small (omega (arith, length-append value back)) at_item in
    (node_at (length out) tag n, found, refl, refl, simp length-append (omega arith), rest)
