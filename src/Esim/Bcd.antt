-- ===== src/Esim/Bcd.antt =====
-- `iccid_to_bcd` and `bcd_to_iccid` of esim_manager.c. `err fail` stands for `false`.
pub mod RoundTrip
use esp32c3_sms_gateway.Prelude.{
  ℕ, ◌+◌, ◌-◌, ◌/◌, ◌%◌, bit_and, bit_or, Bool, true, false, ◌&&◌, ◌||◌, List, [], ◌∷◌, ◌++◌,
  replicate, length, ltb, leb, ◌==◌, if◌then◌else◌,
}
use esp32c3_sms_gateway.Prelude.Bits.{◌<<<◌, ◌>>>◌, u8}
use esp32c3_sms_gateway.Prelude.Result.{fail, Result, ok, fail_if, ◌>>◌}
use esp32c3_sms_gateway.Prelude.Text.{is_digit}

unfoldable pub all_digits : List ℕ → Bool
all_digits [] = true
all_digits (c ∷ s) = is_digit c && all_digits s

-- `(hi << 4) | lo`
unfoldable pub join_nibbles : ℕ → ℕ → ℕ
join_nibbles hi lo = u8 (bit_or (hi <<< 4) lo)

-- The bytes that the loop writes, two digits at a time.
unfoldable pub bcd_bytes : List ℕ → List ℕ
unfolding join_nibbles
bcd_bytes [] = []
bcd_bytes (c ∷ []) = join_nibbles 0x0f (c - b'0') ∷ []
bcd_bytes (c ∷ d ∷ s) = join_nibbles (d - b'0') (c - b'0') ∷ bcd_bytes s

-- The ten bytes of `bcd`.
unfoldable pub iccid_to_bcd : List ℕ → ℕ → Result (List ℕ)
iccid_to_bcd iccid bcd_size = do
  fail_if (ltb bcd_size 10) fail
  fail_if (length iccid == 0 || ltb 20 (length iccid)) fail
  fail_if (if all_digits iccid then false else true) fail
  ok (bcd_bytes iccid ++ replicate (10 - length (bcd_bytes iccid)) 0xff)

-- What the loop body appends for the byte `b`.
unfoldable pub put_nibbles : ℕ → ℕ → List ℕ → List ℕ
put_nibbles out_size b out =
    let lo = bit_and b 0x0f in
    let hi = bit_and (b >>> 4) 0x0f in
    let out1 = if leb lo 9 then out ++ ((b'0' + lo) ∷ []) else out in
    if leb hi 9 && ltb (length out1 + 1) out_size then out1 ++ ((b'0' + hi) ∷ []) else out1

unfoldable pub bcd_loop : ℕ → List ℕ → List ℕ → List ℕ
bcd_loop out_size [] out = out
bcd_loop out_size (b ∷ bcd) out =
    let rest = bcd_loop out_size bcd (put_nibbles out_size b out) in
    if ltb (length out + 1) out_size then rest else out

unfoldable pub bcd_to_iccid : List ℕ → ℕ → List ℕ
bcd_to_iccid bcd out_size = bcd_loop out_size bcd []
