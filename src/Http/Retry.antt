-- ===== src/Http/Retry.antt =====
-- Which attempts are made, and how long the loop waits between them.
use esp32c3_sms_gateway.Prelude.{
  ℕ, zero, suc, ◌+◌, ◌-◌, ◌*◌, ◌^◌, ◌≤◌, ◌<◌, ◌≡◌, ◌⊎◌, ◌↔◌, inl, inr, refl, sym, ap, ◌∙◌, arith,
  Bool, true, false, Bool-cases, Option, some, List, [], ◌∷◌, length, take, ltb, ◌==◌,
}
use esp32c3_sms_gateway.Push.Request.{Method}
use esp32c3_sms_gateway.Http.{
  Outcome, is_accepted, ClientRequest, client_request, Run, wait_for_clock, attempt_loop,
  http_util_request,
}

wait_for_clock_bound :
    (tm_year : ℕ → ℕ) (more retry_time : ℕ)
    → wait_for_clock tm_year more retry_time ≤ more + retry_time
unfolding wait_for_clock
wait_for_clock_bound tm_year zero retry_time = omega arith
wait_for_clock_bound tm_year (suc more) retry_time =
    ground (arith, wait_for_clock_bound tm_year more (suc retry_time))

-- The total of the waits.
unfoldable pub sum : List ℕ → ℕ
sum [] = 0
sum (n ∷ ns) = n + sum ns

-- Attempt `k` is the first that the server accepts.
pub record IsFirst (perform : ℕ → Outcome) (k : ℕ) : Type 0 where
  pub accepted : is_accepted (perform k) ≡ true
  pub earlier : (i : ℕ) → i < k → is_accepted (perform i) ≡ false

four_attempts :
    (perform : ℕ → Outcome) (k : ℕ)
    → IsFirst perform k
    → k ≤ 3
    → attempt_loop perform 4 0 2000 []
      ≡ record { success = true; attempts = suc k; waits = take k (2000 ∷ 4000 ∷ 8000 ∷ []) }
unfolding attempt_loop
four_attempts perform zero h small = rw h.accepted refl
four_attempts perform (suc zero) h small = rw (h.accepted, h.earlier 0 (omega arith)) refl
four_attempts perform (suc (suc zero)) h small =
    rw (h.accepted, h.earlier 0 (omega arith), h.earlier 1 (omega arith)) refl
four_attempts perform (suc (suc (suc zero))) h small =
    rw (h.accepted, h.earlier 0 (omega arith), h.earlier 1 (omega arith), h.earlier 2 (omega arith))
      refl
four_attempts perform (suc (suc (suc (suc k)))) h small = absurd (omega arith)

-- The run of four attempts that all fail.
abbrev pub no_success : Run
no_success = record { success = false; attempts = 4; waits = 2000 ∷ 4000 ∷ 8000 ∷ [] }

abbrev pub NoneAccepted : (ℕ → Outcome) → ℕ → Type 0
NoneAccepted perform n = (i : ℕ) → i < n → is_accepted (perform i) ≡ false

last-cases : (i n : ℕ) → i < suc n → (i < n) ⊎ (i ≡ n)
last-cases i n small = elim (Bool-cases (ltb i n)) [
  | inl less ↦ inl (ground (arith, less))
  | inr no_less ↦ inr (ground (arith, no_less, small))
]

NoneAccepted-suc :
    (perform : ℕ → Outcome) (n : ℕ)
    → NoneAccepted perform n
    → is_accepted (perform n) ≡ false
    → NoneAccepted perform (suc n)
NoneAccepted-suc perform n before last i small = elim (last-cases i n small) [
  | inl less ↦ before i less
  | inr same ↦ rw same last
]

-- The search for the first accepted attempt below `n`.
search-IsFirst :
    (perform : ℕ → Outcome) (n : ℕ)
    → NoneAccepted perform n ⊎ ((k : ℕ) × (k < n) × IsFirst perform k)
search-IsFirst perform zero = inl (λ i small. absurd (omega (arith, small)))
search-IsFirst perform (suc n) =
    go (search-IsFirst perform n) (Bool-cases (is_accepted (perform n)))
  where
    go :
        NoneAccepted perform n ⊎ ((k : ℕ) × (k < n) × IsFirst perform k)
        → (is_accepted (perform n) ≡ true) ⊎ (is_accepted (perform n) ≡ false)
        → NoneAccepted perform (suc n) ⊎ ((k : ℕ) × (k < suc n) × IsFirst perform k)
    go (inr (k, small, first)) now = inr (k, omega (arith, small), first)
    go (inl before) (inl taken) =
        inr (n, omega arith, record { accepted = taken; earlier = before })
    go (inl before) (inr refused) = inl (NoneAccepted-suc perform n before refused)

attempts_fail :
    (perform : ℕ → Outcome) → NoneAccepted perform 4 → attempt_loop perform 4 0 2000 [] ≡ no_success
unfolding attempt_loop
attempts_fail perform h =
    rw (h 0 (omega arith), h 1 (omega arith), h 2 (omega arith), h 3 (omega arith)) refl

failed-NoneAccepted :
    (perform : ℕ → Outcome)
    → (attempt_loop perform 4 0 2000 []).success ≡ false
    → NoneAccepted perform 4
failed-NoneAccepted perform failed = elim (search-IsFirst perform 4) [
  | inl nobody ↦ nobody
  | inr (k, small, first) ↦ absurd (
      true_false
        (ap success_of (sym (four_attempts perform k first (omega (arith, small)))) ∙ failed))
]
  where
    success_of : Run → Bool
    success_of r = r.success

    true_false : true ≡ false → ⊥
    true_false e = cc

sum_waits : (k : ℕ) → k ≤ 3 → sum (take k (2000 ∷ 4000 ∷ 8000 ∷ [])) ≡ 2000 * (2 ^ k - 1)
unfolding sum
sum_waits zero small = refl
sum_waits (suc zero) small = refl
sum_waits (suc (suc zero)) small = refl
sum_waits (suc (suc (suc zero))) small = refl
sum_waits (suc (suc (suc (suc k)))) small = absurd (omega (arith, small))

-- With an address, where the server accepts attempt `k` of four first (counted from 0), the request
-- succeeds at this attempt, after at most 10 seconds for the clock and the first `k` of the waits of
-- 2, 4 and 8 seconds, which are 2000 * (2 ^ k - 1) milliseconds together.
pub http_util_request-IsFirst :
    (perform : ClientRequest → ℕ → Outcome) (tm_year : ℕ → ℕ) (url : List ℕ) (method : Method)
    (payload content_type : Option (List ℕ)) (k : ℕ)
    → 0 < length url
    → IsFirst (perform (client_request url method payload content_type)) k
    → k ≤ 3
    → let (clock, run) = http_util_request perform tm_year (some url) method payload content_type in
      (clock ≤ 10)
      × (run
          ≡ record { success = true; attempts = suc k; waits = take k (2000 ∷ 4000 ∷ 8000 ∷ []) })
      × (sum run.waits ≡ 2000 * (2 ^ k - 1))
unfolding http_util_request
http_util_request-IsFirst perform tm_year url method payload content_type k present first small =
    let has_url : (length url == 0) ≡ false = ground (arith, present) in
    let tried =
      four_attempts (perform (client_request url method payload content_type)) k first small in
    rw has_url
      (wait_for_clock_bound tm_year 10 0, tried, ap (λ r. sum r.waits) tried ∙ sum_waits k small)

-- With an address, the request fails exactly if the server accepts none of four attempts, and exactly
-- then four attempts are made without success, with waits of 2, 4 and 8 seconds between them in this
-- order.
pub http_util_request_fails :
    (perform : ClientRequest → ℕ → Outcome) (tm_year : ℕ → ℕ) (url : List ℕ) (method : Method)
    (payload content_type : Option (List ℕ))
    → 0 < length url
    → let run = (http_util_request perform tm_year (some url) method payload content_type).1 in
      ((run.success ≡ false)
        ↔ NoneAccepted (perform (client_request url method payload content_type)) 4)
      × ((run.success ≡ false) ↔ (run ≡ no_success))
unfolding http_util_request
http_util_request_fails perform tm_year url method payload content_type present =
    let has_url : (length url == 0) ≡ false = ground (arith, present) in
    let answers = perform (client_request url method payload content_type) in
    rw has_url (
      (failed-NoneAccepted answers, λ refused. ap (λ r. r.success) (attempts_fail answers refused)),
      (
        (λ failed. attempts_fail answers (failed-NoneAccepted answers failed)),
        λ same. ap (λ r. r.success) same,
      ),
    )
