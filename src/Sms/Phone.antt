-- ===== src/Sms/Phone.antt =====
-- `normalize_phone` and `phone_equals` of sms_processor.c. The null arguments that `phone_equals`
-- refuses do not arise in its callers and are left out.
pub mod Equality
use esp32c3_sms_gateway.Prelude.{
  ℕ, ◌+◌, Bool, true, false, ◌&&◌, ◌||◌, List, [], ◌∷◌, ◌++◌, length, ltb, ◌==◌, if◌then◌else◌,
}
use esp32c3_sms_gateway.Prelude.Text.{is_digit, bytes_eq}

-- What the loop body appends for the character `c`.
unfoldable pub kept : ℕ → List ℕ → List ℕ
kept c out =
    if is_digit c then out ++ (c ∷ []) else if c == b'+' && length out == 0 then b'+' ∷ [] else out

-- The loop; it stops when `out` is full.
unfoldable pub normalize_loop : ℕ → List ℕ → List ℕ → List ℕ
normalize_loop out_len [] out = out
normalize_loop out_len (c ∷ s) out =
    let rest = normalize_loop out_len s (kept c out) in
    if ltb (length out + 1) out_len then rest else out

unfoldable pub normalize_phone : List ℕ → ℕ → List ℕ
normalize_phone s out_len = normalize_loop out_len s []

-- `x[0] == '\0'`
abbrev pub is_empty : List ℕ → Bool
is_empty [] = true
is_empty (c ∷ s) = false

-- `x[0] == '+' && strcmp(x + 1, y) == 0`
unfoldable pub plus_then : List ℕ → List ℕ → Bool
plus_then [] y = false
plus_then (c ∷ x) y = c == b'+' && bytes_eq x y

unfoldable pub phone_equals : List ℕ → List ℕ → Bool
phone_equals a b =
    let na = normalize_phone a 32 in
    let nb = normalize_phone b 32 in
    if is_empty na || is_empty nb
    then false
    else if bytes_eq na nb
    then true
    else if plus_then na nb
    then true
    else plus_then nb na
