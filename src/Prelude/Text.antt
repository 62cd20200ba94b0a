-- ===== src/Prelude/Text.antt =====
-- C strings as lists of bytes without their terminator.
use Prim.Native.Nat.{ℕ, zero, suc, ◌+◌, ◌-◌, ◌/◌, ◌%◌}
use Prim.Native.Char.{code}
use Prim.Native.String.{String}
use mathlib.Core.Path.{◌≡◌, refl}
use mathlib.Core.Logic.{◌≢◌}
use native.Mathlib.Omega.{arith}
use mathlib.Core.Bool.{Bool, true, false, ◌&&◌}
use mathlib.Core.Option.{Option, none, some}
use mathlib.Core.List.{List, [], ◌∷◌, ◌++◌}
use esp32c3_sms_gateway.Prelude.Tests.{◌==◌, ==_iff, leb, ltb, if◌then◌else◌}
use esp32c3_sms_gateway.Prelude.Lists.{take, All}

-- The bytes of an ASCII text.
abbrev pub ascii : String → List ℕ
ascii String.[] = []
ascii (String.◌∷◌ c s) = code c ∷ ascii s

-- What a reader of a char array sees: the bytes in front of the first NUL.
unfoldable pub c_str : List ℕ → List ℕ
c_str [] = []
c_str (c ∷ s) = if c == 0 then [] else c ∷ c_str s

-- `strlcpy(dst, src, size)`, and `strncpy(dst, src, size - 1)` into a zeroed array.
unfoldable pub copy_str : ℕ → List ℕ → List ℕ
unfolding c_str
copy_str size src = take (size - 1) (c_str src)

-- `strcmp(a, b) == 0`, on what both readers see.
unfoldable pub bytes_eq : List ℕ → List ℕ → Bool
bytes_eq [] [] = true
bytes_eq [] (y ∷ ys) = false
bytes_eq (x ∷ xs) [] = false
bytes_eq (x ∷ xs) (y ∷ ys) = x == y && bytes_eq xs ys

pub bytes_eq_iff : (x y : List ℕ) → bytes_eq x y ≡ true → x ≡ y
unfolding bytes_eq
bytes_eq_iff [] [] e = refl
bytes_eq_iff [] (b ∷ y) e = cc
bytes_eq_iff (a ∷ x) [] e = cc
bytes_eq_iff (a ∷ x) (b ∷ y) e = ground (arith, bytes_eq_iff x y, ==_iff a b)

-- `isdigit`
abbrev pub is_digit : ℕ → Bool
is_digit c = leb b'0' c && leb c b'9'

-- The rest of `s` from the first place where `needle` starts on, as `strstr` returns it.
unfoldable pub starts : List ℕ → List ℕ → Bool
starts [] s = true
starts (x ∷ xs) [] = false
starts (x ∷ xs) (y ∷ ys) = x == y && starts xs ys

unfoldable pub find_str : List ℕ → List ℕ → Option (List ℕ)
unfolding starts
find_str needle [] = if starts needle [] then some [] else none
find_str needle (c ∷ s) =
    let later = find_str needle s in if starts needle (c ∷ s) then some (c ∷ s) else later

-- `strchr`
unfoldable pub find_char : ℕ → List ℕ → Option (List ℕ)
find_char x [] = none
find_char x (c ∷ s) = let later = find_char x s in if c == x then some (c ∷ s) else later

pub find_char_first :
    (c : ℕ) (xs ys : List ℕ) → All (λ x. x ≢ c) xs → find_char c (xs ++ c ∷ ys) ≡ some (c ∷ ys)
unfolding find_char
find_char_first c [] ys h = ground arith
find_char_first c (x ∷ xs) ys h = ground (arith, h.0, find_char_first c xs ys h.1)

-- The decimal digits of a number; ten are enough for one of 32 bits.
unfoldable pub decimal_digits : ℕ → ℕ → List ℕ
decimal_digits zero n = []
decimal_digits (suc fuel) n =
    let front = decimal_digits fuel (n / 10) in
    (if ltb n 10 then [] else front) ++ ((b'0' + n % 10) ∷ [])

-- "%d", "%u" and "%zu" of a number of 32 bits.
unfoldable pub decimal : ℕ → List ℕ
unfolding decimal_digits
decimal n = decimal_digits 10 n
