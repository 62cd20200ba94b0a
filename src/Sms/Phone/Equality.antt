-- ===== src/Sms/Phone/Equality.antt =====
-- What a phone number is reduced to, and which numbers the code takes for the same.
use esp32c3_sms_gateway.Prelude.{
  take_all, take-append_full, ℕ, zero, suc, ◌≤◌, ◌≡◌, ◌≢◌, ◌↔◌, refl, sym, arith, Bool, true, false,
  ◌||◌, List, [], ◌∷◌, ◌++◌, length, length-append, take, All, ==_iff, ◌==◌, if◌then◌else◌,
}
use esp32c3_sms_gateway.Prelude.Text.{bytes_eq_iff, is_digit, bytes_eq}
use esp32c3_sms_gateway.Sms.Phone.{
  kept, normalize_loop, normalize_phone, is_empty, plus_then, phone_equals,
}
use esp32c3_sms_gateway.Sms.Concat.Reassembly.{bytes_eq_refl}
use mathlib.Core.List.{append-nil, append_assoc}

unfoldable pub digits_of : List ℕ → List ℕ
digits_of [] = []
digits_of (c ∷ s) = if is_digit c then c ∷ digits_of s else digits_of s

-- The digits of a text, behind a plus sign if one stands in front of all of them.
unfoldable pub dialled : List ℕ → List ℕ
dialled [] = []
dialled (c ∷ s) =
    if is_digit c then c ∷ digits_of s else if c == b'+' then b'+' ∷ digits_of s else dialled s

normalize_loop-digits :
    (n : ℕ) (s : List ℕ) (c : ℕ) (out : List ℕ)
    → length (c ∷ out) ≤ n
    → normalize_loop (suc n) s (c ∷ out) ≡ take n ((c ∷ out) ++ digits_of s)
unfolding normalize_loop kept digits_of
normalize_loop-digits n [] c out h = rw (append-nil out) (sym (take_all n (c ∷ out) h))
normalize_loop-digits n (x ∷ s) c out h = ground (
  arith,
  take-append_full n (c ∷ out) (digits_of (x ∷ s)),
  normalize_loop-digits n s c out,
  normalize_loop-digits n s c (out ++ (x ∷ [])),
  length-append out (x ∷ []),
  append_assoc out (x ∷ []) (digits_of s),
)

normalize_loop-dialled :
    (n : ℕ) (s : List ℕ) → normalize_loop (suc (suc n)) s [] ≡ take (suc n) (dialled s)
unfolding normalize_loop kept dialled
normalize_loop-dialled n [] = refl
normalize_loop-dialled n (x ∷ s) = ground (
  arith,
  normalize_loop-dialled n s,
  normalize_loop-digits (suc n) s x [],
  normalize_loop-digits (suc n) s b'+' [],
)

pub normalize_phone-dialled : (s : List ℕ) → normalize_phone s 32 ≡ take 31 (dialled s)
unfolding normalize_phone
normalize_phone-dialled s = normalize_loop-dialled 30 s

-- The part of a number that is compared.
unfoldable pub number : List ℕ → List ℕ
number s = take 31 (dialled s)

unfoldable pub bare : List ℕ → List ℕ
bare [] = []
bare (c ∷ s) = if c == b'+' then s else c ∷ s

-- No plus sign behind the first character.
abbrev NoPlus : List ℕ → Type 0
NoPlus [] = Unit
NoPlus (c ∷ s) = All (λ d. d ≢ b'+') s

digits_of_plain : (s : List ℕ) → All (λ d. d ≢ b'+') (digits_of s)
unfolding digits_of
digits_of_plain [] = tt
digits_of_plain (c ∷ s) = ground (arith, digits_of_plain s)

take-All : (n : ℕ) (P : ℕ → Type 0) (s : List ℕ) → All P s → All P (take n s)
take-All zero P s h = tt
take-All (suc n) P [] h = tt
take-All (suc n) P (c ∷ s) h = (h.0, take-All n P s h.1)

number-NoPlus : (s : List ℕ) → NoPlus (number s)
unfolding number dialled
number-NoPlus [] = tt
number-NoPlus (c ∷ s) =
    ground (arith, number-NoPlus s, take-All 30 (λ d. d ≢ b'+') (digits_of s) (digits_of_plain s))

-- The comparison of two reduced numbers.
same_number : List ℕ → List ℕ → Bool
same_number x y =
    if is_empty x || is_empty y
    then false
    else if bytes_eq x y
    then true
    else if plus_then x y
    then true
    else plus_then y x

behind_plus :
    (x : List ℕ) (d : ℕ) (y : List ℕ)
    → All (λ c. c ≢ b'+') x
    → bytes_eq x (d ∷ y) ≡ true
    → (x ≡ d ∷ y) × (d == b'+' ≡ false)
unfolding bytes_eq
behind_plus [] d y h e = cc
behind_plus (c ∷ x) d y h e = (bytes_eq_iff (c ∷ x) (d ∷ y) e, ground (arith, h.0, ==_iff c d))

same_number-bare :
    (x y : List ℕ)
    → NoPlus x
    → NoPlus y
    → same_number x y ≡ true
    → (x ≢ []) × ((y ≢ []) × (bare x ≡ bare y))
unfolding same_number plus_then bare
same_number-bare [] y p q e = cc
same_number-bare (c ∷ x) [] p q e = cc
same_number-bare (c ∷ x) (d ∷ y) p q e = (
  λ h. cc,
  (λ h. cc, ground (arith, bytes_eq_iff (c ∷ x) (d ∷ y), behind_plus x d y p, behind_plus y c x q)),
)

bare-same_number : (x y : List ℕ) → x ≢ [] → y ≢ [] → bare x ≡ bare y → same_number x y ≡ true
unfolding same_number plus_then bare
bare-same_number [] y p q e = absurd (p refl)
bare-same_number (c ∷ x) [] p q e = absurd (q refl)
bare-same_number (c ∷ x) (d ∷ y) p q e =
    ground (arith, bytes_eq_refl (c ∷ x), bytes_eq_refl x, bytes_eq_refl (d ∷ y), bytes_eq_refl y)

-- Two texts are the same phone number exactly if both have a digit or a plus sign, and what the
-- first 31 characters of their dialled forms are behind a leading plus sign agrees.
pub phone_equals_iff :
    (a b : List ℕ)
    → (phone_equals a b ≡ true)
      ↔ ((number a ≢ []) × ((number b ≢ []) × (bare (number a) ≡ bare (number b))))
unfolding phone_equals same_number number
phone_equals_iff a b =
    rw (normalize_phone-dialled a, normalize_phone-dialled b, phone_equals)
      (
        same_number-bare (number a) (number b) (number-NoPlus a) (number-NoPlus b),
        λ h. bare-same_number (number a) (number b) h.0 h.1.0 h.1.1,
      )
