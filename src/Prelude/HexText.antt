-- ===== src/Prelude/HexText.antt =====
-- Bytes written as pairs of upper-case hexadecimal digits: the reference form of the text that
-- the modem and the eSIM commands carry.
use Prim.Native.Nat.{ℕ, ◌+◌, ◌-◌, ◌*◌, ◌/◌, ◌%◌, ◌<◌}
use mathlib.Core.Path.{◌≡◌}
use mathlib.Core.List.{List, [], ◌∷◌}
use native.Mathlib.Omega.{arith}
use esp32c3_sms_gateway.Prelude.Tests.{ltb, if◌then◌else◌}
use esp32c3_sms_gateway.Prelude.Lists.{length}

unfoldable pub hex_digit : ℕ → ℕ
hex_digit n = if ltb n 10 then b'0' + n else b'A' + (n - 10)

unfoldable pub hex_text : List ℕ → List ℕ
unfolding hex_digit
hex_text [] = []
hex_text (b ∷ bs) = hex_digit (b / 16) ∷ hex_digit (b % 16) ∷ hex_text bs

abbrev pub IsByte : ℕ → Type 0
IsByte b = b < 256

pub length-hex_text : (bs : List ℕ) → length (hex_text bs) ≡ 2 * length bs
unfolding hex_text
length-hex_text [] = omega arith
length-hex_text (b ∷ bs) = omega (arith, length-hex_text bs)
