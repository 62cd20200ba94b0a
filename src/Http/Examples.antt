-- ===== src/Http/Examples.antt =====
-- Requests that succeed late, and one that fails.
use esp32c3_sms_gateway.Prelude.{
  ℕ, ◌-◌, ◌*◌, ◌^◌, ◌≤◌, ◌≡◌, ◌↔◌, refl, arith, true, false, some, [], ◌∷◌, ltb, if◌then◌else◌,
}
use esp32c3_sms_gateway.Prelude.Text.{ascii}
use esp32c3_sms_gateway.Push.Request.{post_method}
use esp32c3_sms_gateway.Http.{
  Outcome, no_client, transport_error, answered, ClientRequest, client_request, http_util_request,
}
use esp32c3_sms_gateway.Http.Retry.{
  sum, no_success, NoneAccepted, IsFirst, http_util_request-IsFirst, http_util_request_fails,
}

-- No client, then a server error, then success.
abbrev third_time : ClientRequest → ℕ → Outcome
third_time r i = if ltb i 1 then no_client else if ltb i 2 then answered 503 else answered 204

abbrev unreachable : ClientRequest → ℕ → Outcome
unreachable r i = transport_error

third_time-IsFirst : (r : ClientRequest) → IsFirst (third_time r) 2
third_time-IsFirst r = record { accepted = refl; earlier = λ i small. ground arith }

http_util_request-IsFirst_example :
    let (clock, run) =
      http_util_request third_time
        (λ i. 70)
        (some (ascii "http://a.b"))
        post_method
        (some (ascii "{}"))
        (some (ascii "application/json")) in
    (clock ≤ 10)
    × (run ≡ record { success = true; attempts = 3; waits = 2000 ∷ 4000 ∷ [] })
    × (sum run.waits ≡ 2000 * (2 ^ 2 - 1))
http_util_request-IsFirst_example =
    http_util_request-IsFirst third_time (λ i. 70) (ascii "http://a.b") post_method
      (some (ascii "{}")) (some (ascii "application/json")) 2 (omega arith)
      (third_time-IsFirst (
        client_request (ascii "http://a.b") post_method (some (ascii "{}"))
          (some (ascii "application/json"))))
      (omega arith)

http_util_request_fails_example :
    let run =
      (http_util_request unreachable
        (λ i. 125)
        (some (ascii "http://a.b"))
        post_method
        (some (ascii "{}"))
        (some (ascii "application/json"))).1 in
    ((run.success ≡ false)
      ↔ NoneAccepted
          (unreachable (
            client_request
              (ascii "http://a.b")
              post_method
              (some (ascii "{}"))
              (some (ascii "application/json"))))
          4)
    × ((run.success ≡ false) ↔ (run ≡ no_success))
http_util_request_fails_example =
    http_util_request_fails unreachable (λ i. 125) (ascii "http://a.b") post_method
      (some (ascii "{}")) (some (ascii "application/json")) (omega arith)
