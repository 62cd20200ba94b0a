-- ===== src/Pdu/Decode/Fragment.antt =====
-- Whole UCS2 fragments of long messages through `pdu_decode`.
use esp32c3_sms_gateway.Prelude.{
  ℕ, ◌+◌, ◌-◌, ◌*◌, ◌/◌, ◌%◌, ◌≤◌, ◌≡◌, refl, ap, ◌∙◌, arith, bit_or, true, some, List, ◌∷◌, ◌++◌,
  length, drop, drop-suc, drop_add_eq, All, get_elem?-drop, get_elem?_at,
}
use esp32c3_sms_gateway.Prelude.Bits.{◌<<<◌, shl-bit_or}
use esp32c3_sms_gateway.Prelude.HexText.{hex_text, IsByte}
use esp32c3_sms_gateway.Prelude.Result.{ok}
use esp32c3_sms_gateway.Pdu.Text.Utf8.{
  be_units, IsUnit16, utf8_points, unit_points, length-be_units, ucs2_to_utf8-scan,
}
use esp32c3_sms_gateway.Pdu.Timestamp.RoundTrip.{date_text}
use esp32c3_sms_gateway.Pdu.Decode.{
  ConcatInfo, ucs2, encoding_type, decode_user_data, parse_udh, udh_loop, short_reference,
  long_reference, decode_text, pdu_decode,
}
use esp32c3_sms_gateway.Pdu.Decode.Deliver.{
  Header, IsHeader, header, header_len, sender_text, has_udh, at_user_data,
}
use native.Mathlib.Numerals.{add-one}
use esp32c3_sms_gateway.Pdu.Decode.Conversion.{IsNoise, pdu_decode-header}

-- The user data header of a fragment: an 8-bit or a 16-bit reference number.
pub data FragmentHeader : Type 0 where
  short : ℕ → ℕ → ℕ → FragmentHeader
  long : ℕ → ℕ → ℕ → FragmentHeader

unfoldable pub fragment_bytes : FragmentHeader → List ℕ → List ℕ
fragment_bytes (short ref total part) rest = 5 ∷ 0 ∷ 3 ∷ ref ∷ total ∷ part ∷ rest
fragment_bytes (long ref total part) rest =
    6 ∷ 8 ∷ 4 ∷ (ref / 256) ∷ (ref % 256) ∷ total ∷ part ∷ rest

unfoldable pub fragment_info : FragmentHeader → ConcatInfo
fragment_info (short ref total part) = record {
  is_concat = true;
  ref_number = ref;
  total_parts = total;
  part_number = part;
}
fragment_info (long ref total part) = record {
  is_concat = true;
  ref_number = ref;
  total_parts = total;
  part_number = part;
}

unfoldable pub fragment_len : FragmentHeader → ℕ
fragment_len (short ref total part) = 6
fragment_len (long ref total part) = 7

reference_of_bytes : (ref : ℕ) → bit_or ((ref / 256) <<< 8) (ref % 256) ≡ ref
reference_of_bytes ref = omega (arith, shl-bit_or 8 (ref / 256) (ref % 256) (omega arith))

parse_udh-fragment :
    (f : FragmentHeader) (buf rest : List ℕ) (base len : ℕ)
    → drop base buf ≡ fragment_bytes f rest
    → fragment_len f ≤ len
    → parse_udh buf base len true ≡ ok (fragment_info f, fragment_len f)
unfolding parse_udh udh_loop short_reference long_reference fragment_bytes fragment_info
    fragment_len
parse_udh-fragment (short ref total part) buf rest base len e fits = ground (
  arith,
  get_elem?-drop base buf e,
  get_elem?_at base 1 buf e,
  get_elem?_at base 2 buf e,
  get_elem?_at base 3 buf e,
  get_elem?_at base 4 buf e,
  get_elem?_at base 5 buf e,
)
parse_udh-fragment (long ref total part) buf rest base len e fits = ground (
  arith,
  get_elem?-drop base buf e,
  get_elem?_at base 1 buf e,
  get_elem?_at base 2 buf e,
  get_elem?_at base 3 buf e,
  get_elem?_at base 4 buf e,
  get_elem?_at base 5 buf e,
  get_elem?_at base 6 buf e,
  reference_of_bytes ref,
)

fragment_rest :
    (f : FragmentHeader) (buf rest : List ℕ) (base : ℕ)
    → drop base buf ≡ fragment_bytes f rest
    → drop (base + fragment_len f) buf ≡ rest
unfolding fragment_bytes fragment_len
fragment_rest (short ref total part) buf rest base e = drop_add_eq base 6 buf e refl
fragment_rest (long ref total part) buf rest base e = drop_add_eq base 7 buf e refl

length-fragment_bytes :
    (f : FragmentHeader) (rest : List ℕ)
    → length (fragment_bytes f rest) ≡ fragment_len f + length rest
unfolding fragment_bytes fragment_len
length-fragment_bytes (short ref total part) rest = omega arith
length-fragment_bytes (long ref total part) rest = omega arith

fragment_bytes-append :
    (f : FragmentHeader) (xs ys : List ℕ) → fragment_bytes f xs ++ ys ≡ fragment_bytes f (xs ++ ys)
unfolding fragment_bytes
fragment_bytes-append (short ref total part) xs ys = refl
fragment_bytes-append (long ref total part) xs ys = refl

-- What `text` has to be, in at most three bytes for each unit: UTF-8 for the units, or malformed where
-- one of these is half of a surrogate pair.
abbrev pub IsUtf8For : List ℕ → List ℕ → Type 0
IsUtf8For us text = (utf8_points text ≡ unit_points us) × (length text ≤ 3 * length us)

decode_user_data-fragment :
    (f : FragmentHeader) (buf us more sender timestamp : List ℕ) (u udl idx buf_len : ℕ)
    → drop idx buf ≡ udl ∷ fragment_bytes f (be_units (u ∷ us) ++ more)
    → buf_len ≡ idx + 1 + (fragment_len f + length (be_units (u ∷ us)))
    → All IsUnit16 (u ∷ us)
    → (text : List ℕ) × (decode_user_data buf buf_len idx true ucs2 sender timestamp
        ≡ ok (record {
          sender = sender;
          timestamp = timestamp;
          text = text;
          concat = fragment_info f;
        }))
      × IsUtf8For (u ∷ us) text
unfolding decode_user_data decode_text
decode_user_data-fragment f buf us more sender timestamp u udl idx buf_len e n units =
    let base_at : drop (idx + 1) buf ≡ fragment_bytes f (be_units (u ∷ us) ++ more) =
      rw add-one (drop-suc idx buf e) in
    let len : buf_len - (idx + 1) ≡ fragment_len f + length (be_units (u ∷ us)) = omega arith in
    let (text, decoded, meaning, bound) =
      ucs2_to_utf8-scan buf (u ∷ us) more (idx + 1 + fragment_len f) units
        (fragment_rest f buf _ (idx + 1) base_at) in
    let text_len : fragment_len f + length (be_units (u ∷ us)) - fragment_len f
        ≡ length (be_units (u ∷ us)) =
      omega arith in
    (
      text,
      ground (
        arith,
        get_elem?-drop idx buf e,
        len,
        parse_udh-fragment f buf (be_units (u ∷ us) ++ more) (idx + 1)
            (fragment_len f + length (be_units (u ∷ us))) base_at (omega arith),
        text_len,
        length-be_units (u ∷ us),
        decoded,
      ),
      (meaning, bound),
    )

-- A UCS2 fragment of a long message, with an 8-bit or a 16-bit reference number: whatever stood on
-- the stack and around the text, the sender, the date and the fragment's numbers come back, with
-- a text that UTF-8 decoding turns into the fragment's units where none of them is half of a
-- surrogate pair, and that is malformed UTF-8 where one is.
pub pdu_decode-ucs2_fragment :
    (m : Header) (f : FragmentHeader) (stale front back us : List ℕ) (u udl : ℕ)
    → IsHeader m
    → IsNoise front back
    → All IsByte (header m (udl ∷ fragment_bytes f (be_units (u ∷ us))))
    → length (header m (udl ∷ fragment_bytes f (be_units (u ∷ us)))) ≤ 256
    → has_udh m ≡ true
    → encoding_type m.dcs ≡ ucs2
    → All IsUnit16 (u ∷ us)
    → (text : List ℕ) × (pdu_decode stale (
          some
            (front ++ (hex_text (header m (udl ∷ fragment_bytes f (be_units (u ∷ us)))) ++ back)))
        ≡ ok (record {
          sender = sender_text m;
          timestamp = date_text m.sent;
          text = text;
          concat = fragment_info f;
        }))
      × IsUtf8For (u ∷ us) text
pdu_decode-ucs2_fragment m f stale front back us u udl wf noise bytes fits with_udh wide units =
    let user = udl ∷ fragment_bytes f (be_units (u ∷ us)) in
    let (more, reached) =
      pdu_decode-header m stale front back user wf noise bytes fits (omega arith) in
    let placed : drop (header_len m) (header m (user ++ more))
        ≡ udl ∷ fragment_bytes f (be_units (u ∷ us) ++ more) =
      at_user_data m (user ++ more)
      ∙ ap (λ t. udl ∷ t) (fragment_bytes-append f (be_units (u ∷ us)) more) in
    let (text, decoded, meaning) =
      decode_user_data-fragment f (header m (user ++ more)) us more (sender_text m)
        (date_text m.sent) u udl (header_len m) (header_len m + length user) placed
        (omega (arith, length-fragment_bytes f (be_units (u ∷ us)))) units in
    (text, reached ∙ rw (with_udh, wide) decoded, meaning)
