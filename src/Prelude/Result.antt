-- ===== src/Prelude/Result.antt =====
-- `esp_err_t` results, for code that can also read or write outside an array.
use esp32c3_sms_gateway.Prelude.Lists.{get_elem?, All, length}
use Prim.Native.Nat.{ℕ, zero, suc, ◌<◌}
use native.Mathlib.Omega.{arith}
use esp32c3_sms_gateway.Prelude.Tests.{if◌then◌else◌}
use mathlib.Core.Path.{◌≡◌, refl}
use mathlib.Core.Bool.{Bool, true, false}
use mathlib.Core.Option.{none, some}
use mathlib.Core.List.{List, [], ◌∷◌}

-- The error codes that the components return; ESP_OK is `ok`.
pub data EspErr : Type 0 where
  fail invalid_arg invalid_size no_mem not_found not_supported timeout : EspErr

-- `fault` is an access outside an array, which C leaves undefined; `stuck` is a loop whose
-- fuel ran out.
pub data Result {ℓ} (A : Type ℓ) : Type ℓ where
  ok : A → Result A
  err : EspErr → Result A
  fault : Result A
  stuck : Result A

infixl 5 ◌>>=◌ ◌>>◌
abbrev pub ◌>>=◌ {ℓ κ} : {A : Type ℓ} {B : Type κ} → Result A → (A → Result B) → Result B
ok a >>= f = f a
err e >>= f = err e
fault >>= f = fault
stuck >>= f = stuck

abbrev pub ◌>>◌ {ℓ} : {B : Type ℓ} → Result (Unit {0}) → Result B → Result B
m >> k = m >>= λ _. k

-- `if (test) return code;`
abbrev pub fail_if : Bool → EspErr → Result (Unit {0})
fail_if true e = err e
fail_if false e = ok tt

-- The read `a[i]`.
abbrev pub read {ℓ} : {A : Type ℓ} → List A → ℕ → Result A
read xs i = elim (get_elem? xs i) [ none ↦ fault | some x ↦ ok x ]

-- The call ends: it returns a value with the property, or fails with a code, or faults.
abbrev pub Ensures {ℓ} : {A : Type ℓ} → (A → Type 0) → Result A → Type 0
Ensures P (ok a) = P a
Ensures P (err e) = Unit
Ensures P fault = Unit
Ensures P stuck = ⊥

module _ {ℓ κ} {A : Type ℓ} {B : Type κ} where
  pub Ensures-bind :
      (P : A → Type 0) (Q : B → Type 0) (m : Result A) (f : A → Result B)
      → Ensures P m
      → ((a : A) → P a → Ensures Q (f a))
      → Ensures Q (m >>= f)
  Ensures-bind P Q (ok a) f h k = k a h
  Ensures-bind P Q (err e) f h k = tt
  Ensures-bind P Q fault f h k = tt
  Ensures-bind P Q stuck f h k = h

-- A read satisfies whatever all elements do.
pub Ensures-read {ℓ κ} :
    {A : Type ℓ} {B : Type κ} (P : A → Type 0) (Q : B → Type 0) (xs : List A) (i : ℕ)
    (f : A → Result B)
    → All P xs
    → ((a : A) → P a → Ensures Q (f a))
    → Ensures Q (read xs i >>= f)
Ensures-read P Q [] i f h k = tt
Ensures-read P Q (x ∷ xs) zero f h k = k x h.0
Ensures-read P Q (x ∷ xs) (suc i) f h k = Ensures-read P Q xs i f h.1 k

pub Ensures-read_any {ℓ κ} :
    {A : Type ℓ} {B : Type κ} (Q : B → Type 0) (xs : List A) (i : ℕ) (f : A → Result B)
    → ((a : A) → Ensures Q (f a))
    → Ensures Q (read xs i >>= f)
Ensures-read_any Q [] i f k = tt
Ensures-read_any Q (x ∷ xs) zero f k = k x
Ensures-read_any Q (x ∷ xs) (suc i) f k = Ensures-read_any Q xs i f k

module _ {ℓ} {B : Type ℓ} where
  pub Ensures-fail_if :
      (Q : B → Type 0) (b : Bool) (e : EspErr) (m : Result B)
      → (b ≡ false → Ensures Q m)
      → Ensures Q (fail_if b e >> m)
  Ensures-fail_if Q true e m h = tt
  Ensures-fail_if Q false e m h = h refl

  pub Ensures-if :
      (Q : B → Type 0) (b : Bool) (m n : Result B)
      → (b ≡ true → Ensures Q m)
      → (b ≡ false → Ensures Q n)
      → Ensures Q (if b then m else n)
  Ensures-if Q true m n h k = h refl
  Ensures-if Q false m n h k = k refl

  pub Ensures-elim :
      (Q : B → Type 0) (b : Bool) (m n : Result B)
      → (b ≡ true → Ensures Q m)
      → (b ≡ false → Ensures Q n)
      → Ensures Q (elim b [ true ↦ m | false ↦ n ])
  Ensures-elim Q true m n h k = h refl
  Ensures-elim Q false m n h k = k refl

  pub Ensures-weaken :
      (P Q : B → Type 0) (m : Result B) → Ensures P m → ((b : B) → P b → Q b) → Ensures Q m
  Ensures-weaken P Q (ok b) h k = k b h
  Ensures-weaken P Q (err e) h k = tt
  Ensures-weaken P Q fault h k = tt
  Ensures-weaken P Q stuck h k = h

-- The call returns a value with the property.
abbrev pub Returns {ℓ} : {A : Type ℓ} → (A → Type 0) → Result A → Type 0
Returns P (ok a) = P a
Returns P (err e) = ⊥
Returns P fault = ⊥
Returns P stuck = ⊥

module _ {ℓ κ} {A : Type ℓ} {B : Type κ} where
  pub Returns-bind :
      (P : A → Type 0) (Q : B → Type 0) (m : Result A) (f : A → Result B)
      → Returns P m
      → ((a : A) → P a → Returns Q (f a))
      → Returns Q (m >>= f)
  Returns-bind P Q (ok a) f h k = k a h
  Returns-bind P Q (err e) f h k = absurd h
  Returns-bind P Q fault f h k = absurd h
  Returns-bind P Q stuck f h k = absurd h

  -- A read below the length returns an element, which satisfies whatever all elements do.
  pub Returns-read :
      (P : A → Type 0) (Q : B → Type 0) (xs : List A) (i : ℕ) (f : A → Result B)
      → i < length xs
      → All P xs
      → ((a : A) → get_elem? xs i ≡ some a → P a → Returns Q (f a))
      → Returns Q (read xs i >>= f)
  Returns-read P Q [] i f h p k = absurd (omega arith)
  Returns-read P Q (x ∷ xs) zero f h p k = k x refl p.0
  Returns-read P Q (x ∷ xs) (suc i) f h p k = Returns-read P Q xs i f (omega arith) p.1 k

  pub Returns-read_at :
      (Q : B → Type 0) (xs : List A) (i : ℕ) (f : A → Result B) {x : A}
      → get_elem? xs i ≡ some x
      → Returns Q (f x)
      → Returns Q (read xs i >>= f)
  Returns-read_at Q [] i f e h = absurd (none_some e)
    where
      none_some : {x : A} → none ≡ some x → ⊥
      none_some e = cc
  Returns-read_at Q (y ∷ xs) zero f {x} e h = let same : y ≡ x = cc in rw same h
  Returns-read_at Q (y ∷ xs) (suc i) f e h = Returns-read_at Q xs i f e h

module _ {ℓ} {B : Type ℓ} where
  pub Returns-if :
      (Q : B → Type 0) (b : Bool) (m n : Result B)
      → (b ≡ true → Returns Q m)
      → (b ≡ false → Returns Q n)
      → Returns Q (if b then m else n)
  Returns-if Q true m n h k = h refl
  Returns-if Q false m n h k = k refl
