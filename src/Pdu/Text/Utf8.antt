-- ===== src/Pdu/Text/Utf8.antt =====
-- `ucs2_to_utf8` against a reference decoder of UTF-8.
use esp32c3_sms_gateway.Prelude.{
  ℕ, zero, suc, ◌+◌, ◌-◌, ◌*◌, ◌/◌, ◌%◌, ◌≤◌, ◌<◌, ◌≡◌, ◌⊎◌, inl, inr, refl, arith, ◌∙◌, true,
  false, bit_or, ◌&&◌, Bool, not, Option, none, some, List, [], ◌∷◌, ◌++◌, length, length-append,
  drop, All, get_elem?-drop, drop-suc, ltb, leb, if◌then◌else◌,
}
use esp32c3_sms_gateway.Prelude.Bits.{◌<<<◌, bit_and-ones, shl-bit_or}
use esp32c3_sms_gateway.Prelude.Result.{ok}
use esp32c3_sms_gateway.Pdu.Text.{utf8_unit, ucs2_loop, ucs2_to_utf8}
use mathlib.Core.Option
use native.Mathlib.Numerals.{add-one, add-two}

abbrev pub is_surrogate : ℕ → Bool
is_surrogate u = leb 0xd800 u && ltb u 0xe000

-- A code point that UTF-8 codes in a form for `least` and more.
abbrev is_scalar : ℕ → ℕ → Bool
is_scalar least u = leb least u && (ltb u 0x110000 && not (is_surrogate u))

-- The code points of a UTF-8 text (RFC 3629); `pending` bytes of the code point that began with
-- `acc`, whose form codes no less than `least`, are missing. `none` is malformed text: a missing or
-- a stray byte, an overlong form, a surrogate, or a number that is too large.
unfoldable pub utf8_scan : ℕ → ℕ → ℕ → List ℕ → Option (List ℕ)
utf8_scan zero least acc [] = some []
utf8_scan (suc pending) least acc [] = none
utf8_scan zero least acc (b ∷ s) =
    let whole = Option.map (λ us. b ∷ us) (utf8_scan 0 0 0 s) in
    let two = utf8_scan 1 0x80 (b - 0xc0) s in
    let three = utf8_scan 2 0x800 (b - 0xe0) s in
    let four = utf8_scan 3 0x10000 (b - 0xf0) s in
    if ltb b 0x80
    then whole
    else if ltb b 0xc0
    then none
    else if ltb b 0xe0
    then two
    else if ltb b 0xf0
    then three
    else if ltb b 0xf8
    then four
    else none
utf8_scan (suc zero) least acc (b ∷ s) =
    let u = acc * 64 + (b - 0x80) in
    let last = Option.map (λ us. u ∷ us) (utf8_scan 0 0 0 s) in
    if leb 0x80 b && (ltb b 0xc0 && is_scalar least u) then last else none
utf8_scan (suc (suc pending)) least acc (b ∷ s) =
    let more = utf8_scan (suc pending) least (acc * 64 + (b - 0x80)) s in
    if leb 0x80 b && ltb b 0xc0 then more else none

-- The code points of a UTF-8 text.
abbrev pub utf8_points : List ℕ → Option (List ℕ)
utf8_points = utf8_scan 0 0 0

-- What 16-bit units say as code points: none for a text with half of a surrogate pair.
unfoldable pub unit_points : List ℕ → Option (List ℕ)
unit_points [] = some []
unit_points (u ∷ us) =
    let rest = Option.map (λ vs. u ∷ vs) (unit_points us) in if is_surrogate u then none else rest

unit_one : (u : ℕ) → u < 0x80 → utf8_unit u ≡ u ∷ []
unfolding utf8_unit
unit_one u h = ground arith

unit_two : (u : ℕ) → 0x80 ≤ u → u < 0x800 → utf8_unit u ≡ (0xc0 + u / 64) ∷ (0x80 + u % 64) ∷ []
unfolding utf8_unit
unit_two u lo hi =
    ground (arith, shl-bit_or 6 3 (u / 64), shl-bit_or 6 2 (u % 64), bit_and-ones 6 u)

unit_three :
    (u : ℕ)
    → 0x800 ≤ u
    → u < 0x10000
    → utf8_unit u ≡ (0xe0 + u / 4096) ∷ (0x80 + u / 64 % 64) ∷ (0x80 + u % 64) ∷ []
unfolding utf8_unit
unit_three u lo hi = ground (
  arith,
  shl-bit_or 4 14 (u / 4096),
  shl-bit_or 6 2 (u / 64 % 64),
  shl-bit_or 6 2 (u % 64),
  bit_and-ones 6 (u / 64),
  bit_and-ones 6 u,
)

unit_range : (u : ℕ) → (u < 0x80) ⊎ (((0x80 ≤ u) × (u < 0x800)) ⊎ (0x800 ≤ u))
unit_range u = grind arith

flipped : {A : Type 0} (b : Bool) (x y : A) → (if not b then x else y) ≡ (if b then y else x)
flipped true x y = refl
flipped false x y = refl

scan-lead_one :
    (u : ℕ) (s : List ℕ)
    → u < 0x80
    → utf8_points (u ∷ s) ≡ Option.map (λ us. u ∷ us) (utf8_points s)
unfolding utf8_scan
scan-lead_one u s h = let one : ltb u 0x80 ≡ true = ground (arith, h) in rw (one, utf8_scan) refl

scan-lead_two : (a : ℕ) (s : List ℕ) → a < 32 → utf8_points ((0xc0 + a) ∷ s) ≡ utf8_scan 1 0x80 a s
unfolding utf8_scan
scan-lead_two a s h =
    let one : ltb (0xc0 + a) 0x80 ≡ false = ground (arith, h) in
    let stray : ltb (0xc0 + a) 0xc0 ≡ false = ground (arith, h) in
    let two : ltb (0xc0 + a) 0xe0 ≡ true = ground (arith, h) in
    let bits : 0xc0 + a - 0xc0 ≡ a = omega arith in rw (one, stray, two, bits, utf8_scan) refl

scan-lead_three :
    (a : ℕ) (s : List ℕ) → a < 16 → utf8_points ((0xe0 + a) ∷ s) ≡ utf8_scan 2 0x800 a s
unfolding utf8_scan
scan-lead_three a s h =
    let one : ltb (0xe0 + a) 0x80 ≡ false = ground (arith, h) in
    let stray : ltb (0xe0 + a) 0xc0 ≡ false = ground (arith, h) in
    let two : ltb (0xe0 + a) 0xe0 ≡ false = ground (arith, h) in
    let three : ltb (0xe0 + a) 0xf0 ≡ true = ground (arith, h) in
    let bits : 0xe0 + a - 0xe0 ≡ a = omega arith in
    rw (one, stray, two, three, bits, utf8_scan) refl

scan-more :
    (pending least acc d : ℕ) (s : List ℕ)
    → d < 64
    → utf8_scan (suc (suc pending)) least acc ((0x80 + d) ∷ s)
      ≡ utf8_scan (suc pending) least (acc * 64 + d) s
unfolding utf8_scan
scan-more pending least acc d s h =
    let lo : leb 0x80 (0x80 + d) ≡ true = ground (arith, h) in
    let hi : ltb (0x80 + d) 0xc0 ≡ true = ground (arith, h) in
    let bits : 0x80 + d - 0x80 ≡ d = omega arith in rw (lo, hi, bits, utf8_scan) refl

scan-last :
    (least acc d u : ℕ) (s : List ℕ)
    → d < 64
    → acc * 64 + d ≡ u
    → least ≤ u
    → u < 0x10000
    → utf8_scan 1 least acc ((0x80 + d) ∷ s)
      ≡ (if is_surrogate u then none else Option.map (λ us. u ∷ us) (utf8_points s))
unfolding utf8_scan
scan-last least acc d u s h e enough small =
    let lo : leb 0x80 (0x80 + d) ≡ true = ground (arith, h) in
    let hi : ltb (0x80 + d) 0xc0 ≡ true = ground (arith, h) in
    let bits : acc * 64 + (0x80 + d - 0x80) ≡ u = omega (arith, e) in
    let form : leb least u ≡ true = ground (arith, enough) in
    let unicode : ltb u 0x110000 ≡ true = ground (arith, small) in
    rw (lo, hi, bits, form, unicode, utf8_scan) (flipped (is_surrogate u) _ _)

utf8_points-utf8_unit :
    (u : ℕ) (s : List ℕ)
    → u < 0x10000
    → utf8_points (utf8_unit u ++ s)
      ≡ (if is_surrogate u then none else Option.map (λ vs. u ∷ vs) (utf8_points s))
utf8_points-utf8_unit u s h = elim (unit_range u) [
  | inl small ↦
      let plain : leb 0xd800 u ≡ false = ground (arith, small) in
      rw (unit_one u small, plain) (scan-lead_one u s small)
  | inr (inl (lo, hi)) ↦ rw (unit_two u lo hi) (
      scan-lead_two (u / 64) ((0x80 + u % 64) ∷ s) (omega (arith, hi))
      ∙ scan-last 0x80 (u / 64) (u % 64) u s (omega arith) (omega arith) lo h)
  | inr (inr lo) ↦ rw (unit_three u lo h) (
      scan-lead_three (u / 4096) ((0x80 + u / 64 % 64) ∷ (0x80 + u % 64) ∷ s) (omega (arith, h))
      ∙ scan-more 0 0x800 (u / 4096) (u / 64 % 64) ((0x80 + u % 64) ∷ s) (omega arith)
      ∙ scan-last 0x800 (u / 4096 * 64 + u / 64 % 64) (u % 64) u s (omega arith) (omega arith) lo h)
]

-- Big-endian 16-bit units, as a UCS2 payload holds them.
unfoldable pub be_units : List ℕ → List ℕ
be_units [] = []
be_units (u ∷ us) = (u / 256) ∷ (u % 256) ∷ be_units us

abbrev pub IsUnit16 : ℕ → Type 0
IsUnit16 u = u < 0x10000

pub length-be_units : (us : List ℕ) → length (be_units us) ≡ 2 * length us
unfolding be_units
length-be_units [] = omega arith
length-be_units (u ∷ us) = omega (arith, length-be_units us)

unit_of_bytes : (u : ℕ) → bit_or ((u / 256) <<< 8) (u % 256) ≡ u
unit_of_bytes u = omega (arith, shl-bit_or 8 (u / 256) (u % 256) (omega arith))

utf8_text : List ℕ → List ℕ
utf8_text [] = []
utf8_text (u ∷ us) = utf8_unit u ++ utf8_text us

ucs2_loop-utf8_text :
    (buf us rest : List ℕ) (i : ℕ)
    → drop i buf ≡ be_units us ++ rest
    → ucs2_loop buf (length us) i ≡ ok (utf8_text us)
unfolding ucs2_loop utf8_text be_units
ucs2_loop-utf8_text buf [] rest i e = refl
ucs2_loop-utf8_text buf (u ∷ us) rest i e =
    let e1 : drop (i + 1) buf ≡ (u % 256) ∷ be_units us ++ rest = rw add-one (drop-suc i buf e) in
    let e2 : drop (i + 2) buf ≡ be_units us ++ rest =
      rw add-two (drop-suc (suc i) buf (drop-suc i buf e)) in
    ground (
      arith,
      get_elem?-drop i buf e,
      get_elem?-drop (i + 1) buf e1,
      unit_of_bytes u,
      ucs2_loop-utf8_text buf us rest (i + 2) e2,
    )

utf8_points-utf8_text :
    (us : List ℕ) → All IsUnit16 us → utf8_points (utf8_text us) ≡ unit_points us
unfolding utf8_text unit_points
utf8_points-utf8_text [] h = unfold utf8_scan in refl
utf8_points-utf8_text (u ∷ us) (hu, h) =
    rw (utf8_points-utf8_unit u (utf8_text us) hu, utf8_points-utf8_text us h) refl

pub length-utf8_unit : (u : ℕ) → length (utf8_unit u) ≤ 3
unfolding utf8_unit
length-utf8_unit u = ground arith

length-utf8_text : (us : List ℕ) → length (utf8_text us) ≤ 3 * length us
unfolding utf8_text
length-utf8_text [] = omega arith
length-utf8_text (u ∷ us) =
    omega
      (arith, length-append (utf8_unit u) (utf8_text us), length-utf8_unit u, length-utf8_text us)

-- On a payload of big-endian 16-bit units the decoder returns a text of at most three bytes a unit.
-- As UTF-8 this text has just these units as its code points where none of them is half of a
-- surrogate pair, and is malformed where one is.
pub ucs2_to_utf8-scan :
    (buf us rest : List ℕ) (start : ℕ)
    → All IsUnit16 us
    → drop start buf ≡ be_units us ++ rest
    → (text : List ℕ) × (ucs2_to_utf8 buf start (length (be_units us)) ≡ ok text)
      × (utf8_points text ≡ unit_points us)
      × (length text ≤ 3 * length us)
unfolding ucs2_to_utf8
ucs2_to_utf8-scan buf us rest start h e =
    let rounds : (length (be_units us) + 1) / 2 ≡ length us = omega (arith, length-be_units us) in
    (
      utf8_text us,
      rw rounds (ucs2_loop-utf8_text buf us rest start e),
      utf8_points-utf8_text us h,
      length-utf8_text us,
    )
