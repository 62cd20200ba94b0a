-- ===== src/Esim/Bcd/RoundTrip.antt =====
-- An ICCID through its BCD form.
use esp32c3_sms_gateway.Prelude.{
  take_all, take-append_full, take-append-take, ℕ, zero, suc, ◌+◌, ◌-◌, ◌*◌, ◌/◌, ◌%◌, ◌≤◌, ◌<◌,
  ◌≡◌, refl, sym, ap, ◌∙◌, arith, true, Bool-cases, inl, inr, List, [], ◌∷◌, ◌++◌, take, replicate,
  length, length-append, length-take, leb, ltb, if◌then◌else◌,
}
use esp32c3_sms_gateway.Prelude.Bits.{shl-bit_or, low_half}
use esp32c3_sms_gateway.Prelude.Result.{ok}
use esp32c3_sms_gateway.Esim.Bcd.{
  all_digits, join_nibbles, bcd_bytes, iccid_to_bcd, put_nibbles, bcd_loop, bcd_to_iccid,
}
use mathlib.Core.List.{append-nil, append_assoc}

-- The digits of a nibble.
unfoldable pub nibble_text : ℕ → List ℕ
nibble_text n = if leb n 9 then (b'0' + n) ∷ [] else []

-- All digits of the bytes, the low nibble of a byte in front.
unfoldable pub bcd_text : List ℕ → List ℕ
bcd_text [] = []
bcd_text (b ∷ bcd) = nibble_text (b % 16) ++ (nibble_text (b / 16 % 16) ++ bcd_text bcd)

put_nibbles_text :
    (n b : ℕ) (out : List ℕ)
    → length out < n
    → put_nibbles (suc n) b out
      ≡ take n (out ++ (nibble_text (b % 16) ++ nibble_text (b / 16 % 16)))
unfolding put_nibbles nibble_text
put_nibbles_text n b out h =
    let x = b'0' + b % 16 in
    let y = b'0' + b / 16 % 16 in
    ground (
      arith,
      low_half b,
      low_half (b / 16),
      append-nil out,
      take_all n out,
      take_all n (out ++ (x ∷ [])),
      take_all n (out ++ (y ∷ [])),
      take_all n (out ++ (x ∷ y ∷ [])),
      take-append_full n (out ++ (x ∷ [])) (y ∷ []),
      append_assoc out (x ∷ []) (y ∷ []),
      length-append out (x ∷ []),
      length-append out (y ∷ []),
      length-append out (x ∷ y ∷ []),
    )

bcd_loop-bcd_text :
    (n : ℕ) (bcd out : List ℕ)
    → length out ≤ n
    → bcd_loop (suc n) bcd out ≡ take n (out ++ bcd_text bcd)
unfolding bcd_loop bcd_text
bcd_loop-bcd_text n [] out h = rw (append-nil out) (sym (take_all n out h))
bcd_loop-bcd_text n (b ∷ bcd) out h = elim (Bool-cases (ltb (length out + 1) (suc n))) [
  | inr full ↦
      rw (full, bcd_loop) (sym (take-append_full n out (bcd_text (b ∷ bcd)) (ground arith)))
  | inl more ↦
      let text = nibble_text (b % 16) ++ nibble_text (b / 16 % 16) in
      let put = put_nibbles_text n b out (ground arith) in
      let short : length (take n (out ++ text)) ≤ n = omega (arith, length-take n (out ++ text)) in
      rw (more, put, bcd_loop)
        (bcd_loop-bcd_text n bcd (take n (out ++ text)) short
          ∙ take-append-take n (out ++ text) (bcd_text bcd)
          ∙ ap (take n) (simp append_assoc))
]

join_nibbles_value : (hi lo : ℕ) → hi < 16 → lo < 16 → join_nibbles hi lo ≡ hi * 16 + lo
unfolding join_nibbles
join_nibbles_value hi lo h k = omega (arith, shl-bit_or 4 hi lo (omega arith))

bcd_text-padding : (n : ℕ) → bcd_text (replicate n 0xff) ≡ []
unfolding bcd_text nibble_text
bcd_text-padding zero = refl
bcd_text-padding (suc n) = bcd_text-padding n

bcd_text-bcd_bytes :
    (s pad : List ℕ) → all_digits s ≡ true → bcd_text pad ≡ [] → bcd_text (bcd_bytes s ++ pad) ≡ s
unfolding bcd_bytes bcd_text nibble_text all_digits
bcd_text-bcd_bytes [] pad h k = k
bcd_text-bcd_bytes (c ∷ []) pad h k =
    let value = join_nibbles_value 15 (c - 48) (omega arith) (ground arith) in
    let low : (15 * 16 + (c - 48)) % 16 ≡ c - 48 = ground arith in
    let high : (15 * 16 + (c - 48)) / 16 % 16 ≡ 15 = ground arith in
    rw (value, low, high, k) (ground arith)
bcd_text-bcd_bytes (c ∷ d ∷ s) pad h k =
    let value = join_nibbles_value (d - 48) (c - 48) (ground arith) (ground arith) in
    let low : ((d - 48) * 16 + (c - 48)) % 16 ≡ c - 48 = ground arith in
    let high : ((d - 48) * 16 + (c - 48)) / 16 % 16 ≡ d - 48 = ground arith in
    rw (value, low, high, bcd_text-bcd_bytes s pad (ground arith) k) (ground arith)

length-bcd_bytes : (s : List ℕ) → 2 * length (bcd_bytes s) ≤ length s + 1
unfolding bcd_bytes
length-bcd_bytes [] = omega arith
length-bcd_bytes (c ∷ []) = omega arith
length-bcd_bytes (c ∷ d ∷ s) = omega (arith, length-bcd_bytes s)

length-replicate : (n a : ℕ) → length (replicate n a) ≡ n
length-replicate zero a = refl
length-replicate (suc n) a = ap suc (length-replicate n a)

-- A number of 1 to 20 digits is taken, and its BCD form is read back as the number itself, cut to
-- what the caller's array holds: an array of 20 bytes loses the last digit of a 20-digit number.
pub bcd_to_iccid-iccid_to_bcd :
    (iccid : List ℕ) (out_len : ℕ)
    → all_digits iccid ≡ true
    → 0 < length iccid
    → length iccid ≤ 20
    → (bcd : List ℕ) × (iccid_to_bcd iccid 10 ≡ ok bcd)
      × (length bcd ≡ 10)
      × (bcd_to_iccid bcd (suc out_len) ≡ take out_len iccid)
unfolding iccid_to_bcd bcd_to_iccid
bcd_to_iccid-iccid_to_bcd iccid out_len digits some_digit fits =
    let padding = replicate (10 - length (bcd_bytes iccid)) 0xff in
    let text =
      bcd_text-bcd_bytes iccid padding digits (bcd_text-padding (10 - length (bcd_bytes iccid))) in
    (
      bcd_bytes iccid ++ padding,
      ground (arith, digits),
      omega (
        arith,
        length-append (bcd_bytes iccid) padding,
        length-bcd_bytes iccid,
        length-replicate (10 - length (bcd_bytes iccid)) 0xff,
      ),
      bcd_loop-bcd_text out_len (bcd_bytes iccid ++ padding) [] (omega arith)
          ∙ ap (take out_len) text,
    )
