-- ===== src/Call/Caller.antt =====
-- The number in a +CLIP line.
use esp32c3_sms_gateway.Prelude.{
  ℕ, ◌-◌, ◌<◌, ◌≤◌, ◌≡◌, ◌≢◌, refl, ◌==◌, false, arith, true, some, List, ◌∷◌, ◌++◌, length,
  length-append, take-length, take_all, All,
}
use esp32c3_sms_gateway.Prelude.Text.{find_char_first}
use esp32c3_sms_gateway.Call.{caller_of, quoted, ringing, handle_call_ringing}

quoted_number :
    (payload number rest : List ℕ)
    → All (λ c. c ≢ b'"') number
    → 0 < length number
    → length number ≤ 31
    → quoted payload (number ++ b'"' ∷ rest) ≡ number
unfolding quoted
quoted_number payload number rest plain some_digit fits =
    let len : length (number ++ b'"' ∷ rest) - length (b'"' ∷ rest) ≡ length number =
      omega (arith, length-append number (b'"' ∷ rest)) in
    rw (find_char_first b'"' number rest plain, len, quoted)
      (ground (arith, take-length number (b'"' ∷ rest)))

caller_of-number :
    (front number rest : List ℕ)
    → All (λ c. c ≢ b'"') front
    → All (λ c. c ≢ b'"') number
    → 0 < length number
    → length number ≤ 31
    → caller_of (front ++ b'"' ∷ (number ++ b'"' ∷ rest)) ≡ number
unfolding caller_of
caller_of-number front number rest plain plain' some_digit fits =
    rw (find_char_first b'"' front (number ++ b'"' ∷ rest) plain, caller_of)
      (quoted_number (front ++ b'"' ∷ (number ++ b'"' ∷ rest)) number rest plain' some_digit fits)

-- Where call notices are on, a ringing call whose line has a number of 1 to 31 characters between
-- its first two quotes is pushed under that number, with a message that ends in it.
pub handle_call_ringing-number :
    (front number rest timestamp : List ℕ)
    → All (λ c. c ≢ b'"') front
    → All (λ c. c ≢ b'"') number
    → 0 < length number
    → length number ≤ 31
    → handle_call_ringing true timestamp (some (front ++ b'"' ∷ (number ++ b'"' ∷ rest)))
      ≡ some (record { sender = number; message = ringing ++ number; timestamp = timestamp })
unfolding handle_call_ringing
handle_call_ringing-number front number rest timestamp plain plain' some_digit fits =
    let caller = caller_of-number front number rest plain plain' some_digit fits in
    let some_caller : length number == 0 ≡ false = ground arith in
    rw (caller, some_caller, take_all 104 number (omega arith)) refl
