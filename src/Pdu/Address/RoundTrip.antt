-- ===== src/Pdu/Address/RoundTrip.antt =====
-- `parse_phone_number` reads back a number in semi-octets.
use esp32c3_sms_gateway.Prelude.{
  ℕ, zero, suc, ◌+◌, ◌*◌, ◌/◌, ◌<◌, ◌≡◌, refl, arith, List, [], ◌∷◌, ◌++◌, map, length, take, drop,
  All, get_elem?-drop, drop-suc, if◌then◌else◌, ltb, ◌==◌,
}
use esp32c3_sms_gateway.Prelude.Bits.{low_half, high_half}
use esp32c3_sms_gateway.Prelude.Result.{ok}
use esp32c3_sms_gateway.Pdu.Address.{
  put_char, put_semi_octets, number_loop, parse_phone_number, low_nibble, high_nibble,
}
use mathlib.Core.List.{append_assoc, append-nil}
use native.Mathlib.Numerals.{add-one, add-two}

-- Decimal digits two to a byte, the first in the low half; 0xF fills up an odd number.
unfoldable pub semi_octets : List ℕ → List ℕ
semi_octets [] = []
semi_octets (d ∷ []) = (d + 0xf0) ∷ []
semi_octets (d ∷ e ∷ ds) = (d + 16 * e) ∷ semi_octets ds

abbrev pub IsDigit : ℕ → Type 0
IsDigit d = d < 10

abbrev pub digit_chars : List ℕ → List ℕ
digit_chars = map (λ d. b'0' + d)

pub length-semi_octets : (ds : List ℕ) → length (semi_octets ds) ≡ (length ds + 1) / 2
unfolding semi_octets
length-semi_octets [] = omega arith
length-semi_octets (d ∷ []) = omega arith
length-semi_octets (d ∷ e ∷ ds) = omega (arith, length-semi_octets ds)

halves :
    (d e : ℕ) → d < 16 → e < 16 → (low_nibble (d + 16 * e) ≡ d) × (high_nibble (d + 16 * e) ≡ e)
halves d e p q = omega (arith, low_half (d + 16 * e), high_half (d + 16 * e) (omega arith))

-- Appending one element, cut to `n`.
take_append_one :
    (n : ℕ) (pre : List ℕ) (c : ℕ)
    → (if ltb (length (take n pre)) n then take n pre ++ (c ∷ []) else take n pre)
      ≡ take n (pre ++ (c ∷ []))
take_append_one zero pre c = refl
take_append_one (suc zero) [] c = refl
take_append_one (suc (suc n)) [] c = ground arith
take_append_one (suc n) (x ∷ pre) c = ground (arith, take_append_one n pre c)

put_char-take : (pre : List ℕ) (c : ℕ) → put_char (take 19 pre) c ≡ take 19 (pre ++ (c ∷ []))
unfolding put_char
put_char-take pre c = take_append_one 19 pre c

put_semi_octets_pair :
    (pre : List ℕ) (d e : ℕ)
    → d < 10
    → e < 10
    → put_semi_octets (take 19 pre) (d + 16 * e) ≡ take 19 (pre ++ ((b'0' + d) ∷ (b'0' + e) ∷ []))
unfolding put_semi_octets
put_semi_octets_pair pre d e p q = ground (
  arith,
  halves d e,
  put_char-take pre (b'0' + d),
  put_char-take (pre ++ ((b'0' + d) ∷ [])) (b'0' + e),
  append_assoc pre ((b'0' + d) ∷ []) ((b'0' + e) ∷ []),
)

put_semi_octets_last :
    (pre : List ℕ) (d : ℕ)
    → d < 10
    → put_semi_octets (take 19 pre) (d + 0xf0) ≡ take 19 (pre ++ ((b'0' + d) ∷ []))
unfolding put_semi_octets
put_semi_octets_last pre d p = ground (arith, halves d 15, put_char-take pre (b'0' + d))

number_loop-semi_octets :
    (buf ds rest pre : List ℕ) (idx : ℕ)
    → All IsDigit ds
    → drop idx buf ≡ semi_octets ds ++ rest
    → number_loop buf (length (semi_octets ds)) idx (take 19 pre)
      ≡ ok (take 19 (pre ++ digit_chars ds))
unfolding number_loop semi_octets
number_loop-semi_octets buf [] rest pre idx h e = rw append-nil
number_loop-semi_octets buf (d ∷ []) rest pre idx h e =
    ground (arith, get_elem?-drop idx buf e, put_semi_octets_last pre d)
number_loop-semi_octets buf (d ∷ d' ∷ ds) rest pre idx h e =
    let e' : drop (idx + 1) buf ≡ semi_octets ds ++ rest = rw add-one (drop-suc idx buf e) in
    let two = (b'0' + d) ∷ (b'0' + d') ∷ [] in
    ground (
      arith,
      get_elem?-drop idx buf e,
      put_semi_octets_pair pre d d' h.0 h.1.0,
      number_loop-semi_octets buf ds rest (pre ++ two) (idx + 1) h.1.1 e',
      append_assoc pre two (digit_chars ds),
    )

-- The '+' of an international number.
abbrev pub prefix_of : ℕ → List ℕ
prefix_of type_of_address = if type_of_address == 0x91 then b'+' ∷ [] else []

-- A non-empty number in semi-octets, behind its count of digits and its type, is returned as its
-- digits behind the '+' of an international number, cut to 19 characters, with the index that
-- follows it.
pub parse_phone_number-semi_octets :
    (buf rest : List ℕ) (start toa d : ℕ) (ds : List ℕ)
    → All IsDigit (d ∷ ds)
    → drop start buf ≡ length (d ∷ ds) ∷ toa ∷ semi_octets (d ∷ ds) ++ rest
    → parse_phone_number buf start
      ≡ ok (
        take 19 (prefix_of toa ++ digit_chars (d ∷ ds)),
        start + 2 + length (semi_octets (d ∷ ds)),
      )
unfolding parse_phone_number
parse_phone_number-semi_octets buf rest start toa d ds h e =
    let e1 : drop (start + 1) buf ≡ toa ∷ semi_octets (d ∷ ds) ++ rest =
      rw add-one (drop-suc start buf e) in
    let e2 : drop (start + 2) buf ≡ semi_octets (d ∷ ds) ++ rest =
      rw add-two (drop-suc (suc start) buf (drop-suc start buf e)) in
    let loop = number_loop-semi_octets buf (d ∷ ds) rest (prefix_of toa) (start + 2) h e2 in
    let short : take 19 (prefix_of toa) ≡ prefix_of toa = ground arith in
    ground (
      arith,
      get_elem?-drop start buf e,
      get_elem?-drop (start + 1) buf e1,
      length-semi_octets (d ∷ ds),
      loop,
      short,
    )
