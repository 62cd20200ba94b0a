-- ===== src/Pdu/Text/Septets.antt =====
-- `gsm7bit_decode` against number systems: the payload read as a little-endian number in base 256
-- has the septets as its digits in base 128.
use esp32c3_sms_gateway.Prelude.{
  ℕ, zero, suc, ◌+◌, ◌-◌, ◌*◌, ◌/◌, ◌%◌, ◌^◌, ◌≤◌, ◌<◌, ◌≡◌, refl, ap, sym, ◌∙◌, arith, bit_and,
  bit_or, List, [], ◌∷◌, ◌++◌, length, drop, All, get_elem?-drop, drop-suc,
}
use esp32c3_sms_gateway.Prelude.Bits.{◌>>>◌, bit_and-ones, bit_or-shl}
use esp32c3_sms_gateway.Prelude.HexText.{IsByte}
use esp32c3_sms_gateway.Prelude.Result.{ok}
use esp32c3_sms_gateway.Pdu.Text.{join_septet, gsm7_septet, gsm7_loop, gsm7bit_decode}
use native.Mathlib.Nat.{pow-suc}
use native.Mathlib.Numerals.{add-one}

-- The number whose digits, lowest first, are the list.
abbrev pub le_value : ℕ → List ℕ → ℕ
le_value base [] = 0
le_value base (d ∷ ds) = d + base * le_value base ds

abbrev pub IsSeptet : ℕ → Type 0
IsSeptet s = s < 128

low_septet : (x : ℕ) → bit_and x 0x7f ≡ x % 128
low_septet x = bit_and-ones 7 x

-- The low bits `x` of one byte under the bits `c` that the next byte `e` lends.
or_carried :
    (k x e c : ℕ)
    → x < 2 ^ k
    → e * 2 ^ k % 128 ≡ c * 2 ^ k
    → bit_or x (e * 2 ^ k % 128) ≡ x + c * 2 ^ k
or_carried k x e c h p = rw p (bit_or-shl k x c h)

join_septet_value :
    (bit d e : ℕ)
    → 1 < bit
    → bit < 8
    → d < 256
    → join_septet bit d e ≡ (d + 256 * e) / 2 ^ bit % 128
unfolding join_septet
join_septet_value zero d e lo hi h = absurd (omega arith)
join_septet_value (suc zero) d e lo hi h = absurd (omega arith)
join_septet_value (suc (suc zero)) d e lo hi h =
    rw (low_septet, low_septet)
      (omega (arith, or_carried 6 (d / 4 % 128) e (e % 2) (omega arith) (omega arith)))
join_septet_value (suc (suc (suc zero))) d e lo hi h =
    rw (low_septet, low_septet)
      (omega (arith, or_carried 5 (d / 8 % 128) e (e % 4) (omega arith) (omega arith)))
join_septet_value (suc (suc (suc (suc zero)))) d e lo hi h =
    rw (low_septet, low_septet)
      (omega (arith, or_carried 4 (d / 16 % 128) e (e % 8) (omega arith) (omega arith)))
join_septet_value (suc (suc (suc (suc (suc zero))))) d e lo hi h =
    rw (low_septet, low_septet)
      (omega (arith, or_carried 3 (d / 32 % 128) e (e % 16) (omega arith) (omega arith)))
join_septet_value (suc (suc (suc (suc (suc (suc zero)))))) d e lo hi h =
    rw (low_septet, low_septet)
      (omega (arith, or_carried 2 (d / 64 % 128) e (e % 32) (omega arith) (omega arith)))
join_septet_value (suc (suc (suc (suc (suc (suc (suc zero))))))) d e lo hi h =
    rw (low_septet, low_septet)
      (omega (arith, or_carried 1 (d / 128 % 128) e (e % 64) (omega arith) (omega arith)))
join_septet_value (suc (suc (suc (suc (suc (suc (suc (suc bit)))))))) d e lo hi h =
    absurd (omega arith)

-- A bit offset is one of eight numbers.
below_eight {ℓ} :
    (P : ℕ → Type ℓ) → P 0 → P 1 → P 2 → P 3 → P 4 → P 5 → P 6 → P 7 → (b : ℕ) → b < 8 → P b
below_eight P a0 a1 a2 a3 a4 a5 a6 a7 zero h = a0
below_eight P a0 a1 a2 a3 a4 a5 a6 a7 (suc zero) h = a1
below_eight P a0 a1 a2 a3 a4 a5 a6 a7 (suc (suc zero)) h = a2
below_eight P a0 a1 a2 a3 a4 a5 a6 a7 (suc (suc (suc zero))) h = a3
below_eight P a0 a1 a2 a3 a4 a5 a6 a7 (suc (suc (suc (suc zero)))) h = a4
below_eight P a0 a1 a2 a3 a4 a5 a6 a7 (suc (suc (suc (suc (suc zero))))) h = a5
below_eight P a0 a1 a2 a3 a4 a5 a6 a7 (suc (suc (suc (suc (suc (suc zero)))))) h = a6
below_eight P a0 a1 a2 a3 a4 a5 a6 a7 (suc (suc (suc (suc (suc (suc (suc zero))))))) h = a7
below_eight P a0 a1 a2 a3 a4 a5 a6 a7 (suc (suc (suc (suc (suc (suc (suc (suc b)))))))) h =
    absurd (omega arith)

-- Two bytes hold all bits of a septet.
two_bytes :
    (b : ℕ)
    → b < 8
    → (d e r : ℕ) → (d + 256 * (e + 256 * r)) / 2 ^ b % 128 ≡ (d + 256 * e) / 2 ^ b % 128
two_bytes =
    below_eight
      (λ b. (d e r : ℕ) → (d + 256 * (e + 256 * r)) / 2 ^ b % 128 ≡ (d + 256 * e) / 2 ^ b % 128)
      (λ d e r. omega arith) (λ d e r. omega arith) (λ d e r. omega arith) (λ d e r. omega arith)
      (λ d e r. omega arith) (λ d e r. omega arith) (λ d e r. omega arith) (λ d e r. omega arith)

-- The septet at bit `bit` of the number that the bytes from `at` on make.
septet_at :
    (buf : List ℕ) (at bit d : ℕ) (ds more : List ℕ)
    → drop at buf ≡ d ∷ ds ++ more
    → bit < 8
    → d < 256
    → bit + 7 ≤ 8 * length (d ∷ ds)
    → gsm7_septet buf at bit ≡ ok (le_value 256 (d ∷ ds) / 2 ^ bit % 128)
unfolding gsm7_septet
septet_at buf at zero d ds more e hb hd enough =
    ground (arith, get_elem?-drop at buf e, low_septet (d >>> 0))
septet_at buf at (suc zero) d ds more e hb hd enough =
    ground (arith, get_elem?-drop at buf e, low_septet (d >>> 1))
septet_at buf at (suc (suc bit)) d [] more e hb hd enough = absurd (omega arith)
septet_at buf at (suc (suc bit)) d (d' ∷ ds) more e hb hd enough =
    let e' : drop (at + 1) buf ≡ d' ∷ ds ++ more = rw add-one (drop-suc at buf e) in
    let value =
      join_septet_value (suc (suc bit)) d d' (omega arith) hb hd
      ∙ sym (two_bytes (suc (suc bit)) hb d d' (le_value 256 ds)) in
    ground (arith, get_elem?-drop at buf e, get_elem?-drop (at + 1) buf e', value)

-- Seven bits further, in the same byte.
same_byte : (m : ℕ) → m / 2 ^ 7 ≡ m / 2 ^ 0 / 128
same_byte m = omega arith

-- Seven bits further, in the next byte.
next_byte : (b : ℕ) → b < 7 → (d m : ℕ) → d < 256 → m / 2 ^ b ≡ (d + 256 * m) / 2 ^ suc b / 128
next_byte b h =
    below_eight (λ b. (d m : ℕ) → d < 256 → m / 2 ^ b ≡ (d + 256 * m) / 2 ^ suc b / 128)
      (λ d m h. omega arith) (λ d m h. omega arith) (λ d m h. omega arith) (λ d m h. omega arith)
      (λ d m h. omega arith) (λ d m h. omega arith) (λ d m h. omega arith) (λ d m h. omega arith) b
      (omega arith)

-- The lowest digit of a number in base 128, and the others.
peel_power :
    (s : ℕ) (ss : List ℕ) (rest w : ℕ)
    → s < 128
    → w ≡ le_value 128 (s ∷ ss) + 128 ^ suc (length ss) * rest
    → (w % 128 ≡ s) × (w / 128 ≡ le_value 128 ss + 128 ^ length ss * rest)
peel_power s ss rest w h e =
    let p : 128 ^ suc (length ss) * rest ≡ 128 ^ length ss * 128 * rest =
      ap (λ (t : ℕ). t * rest) (pow-suc 128 (length ss)) in
    omega arith

loop_septets :
    (buf septets ds more : List ℕ) (rest at bit : ℕ)
    → drop at buf ≡ ds ++ more
    → bit < 8
    → All IsByte ds
    → All IsSeptet septets
    → bit + 7 * length septets ≤ 8 * length ds
    → le_value 256 ds / 2 ^ bit ≡ le_value 128 septets + 128 ^ length septets * rest
    → gsm7_loop buf (length septets) at bit ≡ ok septets
unfolding gsm7_loop
loop_septets buf [] ds more rest at bit e hb bytes small enough v = refl
loop_septets buf (s ∷ ss) [] more rest at bit e hb bytes small enough v = absurd (omega arith)
loop_septets buf (s ∷ ss) (d ∷ ds) more rest at zero e hb bytes small enough v =
    let (c, v') = peel_power s ss rest _ small.0 v in
    ground (
      arith,
      septet_at buf at zero d ds more e hb bytes.0 (omega arith),
      loop_septets buf ss (d ∷ ds) more rest at 7 e (omega arith) bytes small.1 (omega arith)
          (same_byte (le_value 256 (d ∷ ds)) ∙ v'),
      c,
    )
loop_septets buf (s ∷ ss) (d ∷ ds) more rest at (suc bit) e hb bytes small enough v =
    let (c, v') = peel_power s ss rest _ small.0 v in
    let e' : drop (at + 1) buf ≡ ds ++ more = rw add-one (drop-suc at buf e) in
    let stepped : suc bit + 7 - 8 ≡ bit = omega arith in
    ground (
      arith,
      septet_at buf at (suc bit) d ds more e hb bytes.0 (omega arith),
      loop_septets buf ss ds more rest (at + 1) bit e' (omega arith) bytes.1 small.1 (omega arith)
          (next_byte bit (omega arith) d (le_value 256 ds) bytes.0 ∙ v'),
      stepped,
      c,
    )

-- On bytes and septets in range, the decoder returns the digits in base 128 of the payload's
-- number in base 256, if the payload holds at least as many bits as the septets need; the bits
-- behind them (`rest`) and the bytes behind the payload (`more`) do not matter.
pub gsm7bit_decode-digits :
    (buf septets payload more : List ℕ) (start rest : ℕ)
    → drop start buf ≡ payload ++ more
    → All IsByte payload
    → All IsSeptet septets
    → 7 * length septets ≤ 8 * length payload
    → le_value 256 payload ≡ le_value 128 septets + 128 ^ length septets * rest
    → gsm7bit_decode buf start (length septets) ≡ ok septets
unfolding gsm7bit_decode
gsm7bit_decode-digits buf septets payload more start rest e bytes small enough v =
    loop_septets buf septets payload more rest start 0 e (omega arith) bytes small (omega arith)
      (omega arith)
