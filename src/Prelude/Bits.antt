-- ===== src/Prelude/Bits.antt =====
-- Shifts and masks as arithmetic. The native bit operations compute at numerals; at variables
-- the laws below follow from their recursion on binary digits.
use Prim.Native.Nat.{ℕ, zero, suc, ◌+◌, ◌*◌, ◌/◌, ◌%◌, ◌^◌, ◌≤◌, ◌<◌, ◌-◌, min, max, digits}
use Prim.Native.Nat.{bit_and, bit_or, bit_and-bitwise, bit_or-bitwise}
use mathlib.Core.Path.{◌≡◌, refl, ap, ◌∙◌}
use native.Mathlib.Nat.{pow-suc, one-le-pow, div-add-mod, mod-lt, mod-eq_of_lt}
use native.Mathlib.Nat.{add-mul-mod_self_left}
use mathlib.Core.Bool.{Bool, true, ◌&&◌}
use native.Mathlib.Omega.{arith}
use esp32c3_sms_gateway.Prelude.Tests.{◌==◌, ==_iff}

-- `x << k` and `x >> k`; what a cast cuts off stands where the source casts.
infixl 71 ◌<<<◌ ◌>>>◌
abbrev pub ◌<<<◌ : ℕ → ℕ → ℕ
x <<< k = x * 2 ^ k

abbrev pub ◌>>>◌ : ℕ → ℕ → ℕ
x >>> k = x / 2 ^ k

abbrev pub u8 : ℕ → ℕ
u8 n = n % 256

module _ (z : ℕ → ℕ) (f : ℕ → ℕ → ℕ) where
  enough_digits : (m n a b : ℕ) → a ≤ m → a ≤ n → digits z f m a b ≡ digits z f n a b
  enough_digits zero zero a b p q = refl
  enough_digits zero (suc n) zero b p q = refl
  enough_digits zero (suc n) (suc a) b p q = absurd (omega arith)
  enough_digits (suc m) zero zero b p q = refl
  enough_digits (suc m) zero (suc a) b p q = absurd (omega arith)
  enough_digits (suc m) (suc n) zero b p q = refl
  enough_digits (suc m) (suc n) (suc a) b p q =
      omega (arith, enough_digits m n (suc a / 2) (b / 2) (omega arith) (omega arith))

or_digit : (a b : ℕ) → bit_or a b ≡ 2 * bit_or (a / 2) (b / 2) + max (a % 2) (b % 2)
or_digit zero b = omega (arith, bit_or-bitwise 0 b, bit_or-bitwise 0 (b / 2))
or_digit (suc a) b = omega (
  arith,
  bit_or-bitwise (suc a) b,
  bit_or-bitwise (suc a / 2) (b / 2),
  enough_digits (λ y. y) max a (suc a / 2) (suc a / 2) (b / 2) (omega arith) (omega arith),
)

and_digit : (a b : ℕ) → bit_and a b ≡ 2 * bit_and (a / 2) (b / 2) + min (a % 2) (b % 2)
and_digit zero b = omega (arith, bit_and-bitwise 0 b, bit_and-bitwise 0 (b / 2))
and_digit (suc a) b = omega (
  arith,
  bit_and-bitwise (suc a) b,
  bit_and-bitwise (suc a / 2) (b / 2),
  enough_digits (λ y. 0) min a (suc a / 2) (suc a / 2) (b / 2) (omega arith) (omega arith),
)

pub zero-bit_or : (b : ℕ) → bit_or 0 b ≡ b
zero-bit_or b = omega (arith, bit_or-bitwise 0 b)

zero-bit_and : (b : ℕ) → bit_and 0 b ≡ 0
zero-bit_and b = omega (arith, bit_and-bitwise 0 b)

double : (q k : ℕ) → q * 2 ^ suc k ≡ 2 * (q * 2 ^ k)
double q k = omega (arith, ap (λ (t : ℕ). q * t) (pow-suc 2 k))

-- `r | (q << k)` is a sum where `r` has at most `k` bits.
pub bit_or-shl : (k r q : ℕ) → r < 2 ^ k → bit_or r (q <<< k) ≡ r + q * 2 ^ k
bit_or-shl zero r q h =
    let none_left : r ≡ 0 = omega arith in rw none_left (omega (arith, zero-bit_or (q * 1)))
bit_or-shl (suc k) r q h = omega (
  arith,
  double q k,
  pow-suc 2 k,
  or_digit r (q * 2 ^ suc k),
  bit_or-shl k (r / 2) q (omega (arith, pow-suc 2 k)),
  ap (λ (t : ℕ). bit_or (r / 2) t) (half q k),
)
  where
    half : (q k : ℕ) → q * 2 ^ suc k / 2 ≡ q * 2 ^ k
    half q k = omega (arith, double q k)

or_comm_fuel : (n a b : ℕ) → a ≤ n → b ≤ n → bit_or a b ≡ bit_or b a
or_comm_fuel zero a b h k = let p : a ≡ 0 = omega arith in let q : b ≡ 0 = omega arith in rw (p, q)
or_comm_fuel (suc n) a b h k =
    omega (arith, or_digit a b, or_digit b a, or_comm_fuel n (a / 2) (b / 2))

pub bit_or_comm : (a b : ℕ) → bit_or a b ≡ bit_or b a
bit_or_comm a b = or_comm_fuel (a + b) a b (omega arith) (omega arith)

-- `(q << k) | r`, the order in which the source mostly writes it.
pub shl-bit_or : (k q r : ℕ) → r < 2 ^ k → bit_or (q <<< k) r ≡ q * 2 ^ k + r
shl-bit_or k q r h = omega (arith, bit_or_comm (q * 2 ^ k) r, bit_or-shl k r q h)

-- A mask of `k` ones.
pub bit_and-ones : (k a : ℕ) → bit_and a (2 ^ k - 1) ≡ a % 2 ^ k
bit_and-ones zero a = omega (arith, and_zero a a (omega arith))
  where
    and_zero : (n a : ℕ) → a ≤ n → bit_and a 0 ≡ 0
    and_zero n zero h = zero-bit_and 0
    and_zero zero (suc a) h = absurd (omega arith)
    and_zero (suc n) (suc a) h =
        omega (arith, and_digit (suc a) 0, and_zero n (suc a / 2) (omega arith))
bit_and-ones (suc k) a = omega (
  arith,
  pow-suc 2 k,
  one-le-pow k 2,
  and_digit a (2 ^ suc k - 1),
  bit_and-ones k (a / 2),
  ap (λ (t : ℕ). bit_and (a / 2) t) ones_half,
  mod_half,
)
  where
    ones_half : (2 ^ suc k - 1) / 2 ≡ 2 ^ k - 1
    ones_half = omega (arith, pow-suc 2 k, one-le-pow k 2)

    mod_half : a % 2 ^ suc k ≡ 2 * (a / 2 % 2 ^ k) + a % 2
    mod_half =
        let r = a / 2 % 2 ^ k in
        let q = a / 2 / 2 ^ k in
        let split : a ≡ 2 * r + a % 2 + 2 ^ suc k * q =
          omega (arith, div-add-mod (a / 2) (2 ^ k), ap (λ (t : ℕ). t * q) (pow-suc 2 k)) in
        let small : 2 * r + a % 2 < 2 ^ suc k =
          omega (arith, pow-suc 2 k, mod-lt (a / 2) (one-le-pow k 2 (omega arith))) in
        ap (λ (t : ℕ). t % 2 ^ suc k) split ∙ add-mul-mod_self_left _ _ q ∙ mod-eq_of_lt small

-- Masks of one byte that are no run of low ones: every value is tried.
tabled : ℕ → (ℕ → Bool) → Bool
tabled zero p = true
tabled (suc n) p = p n && tabled n p

tabled_sound : (n : ℕ) (p : ℕ → Bool) (x : ℕ) → tabled n p ≡ true → x < n → p x ≡ true
unfolding tabled
tabled_sound zero p x h lt = absurd (omega arith)
tabled_sound (suc n) p x h lt = ground (arith, tabled_sound n p x)

high_half_table : tabled 256 (λ x. bit_and x 0xf0 / 16 == x / 16) ≡ true
unfolding tabled
high_half_table = refl

pub high_half : (x : ℕ) → x < 256 → bit_and x 0xf0 / 16 ≡ x / 16
high_half x h = (==_iff _ _).0 (tabled_sound 256 _ x high_half_table h)

bit_six_table : tabled 256 (λ x. bit_and x 0x40 == x / 64 % 2 * 64) ≡ true
unfolding tabled
bit_six_table = refl

pub bit_six : (x : ℕ) → x < 256 → bit_and x 0x40 ≡ x / 64 % 2 * 64
bit_six x h = (==_iff _ _).0 (tabled_sound 256 _ x bit_six_table h)

pub low_half : (x : ℕ) → bit_and x 0x0f ≡ x % 16
low_half x = bit_and-ones 4 x

short_mask_table : tabled 128 (λ x. bit_and x 0x80 == 0) ≡ true
unfolding tabled
short_mask_table = refl

pub short_mask : (n : ℕ) → n < 128 → bit_and n 0x80 ≡ 0
short_mask n h = (==_iff _ _).0 (tabled_sound 128 _ n short_mask_table h)
