-- ===== src/Http.antt =====
-- `http_util_request` of components/common_utils/http_utils.c. The HTTP client and the clock are
-- parameters: `perform` is the outcome of each attempt, `tm_year` the year at each look.
pub mod Retry
mod Examples
use esp32c3_sms_gateway.Prelude.{
  ℕ, zero, suc, ◌+◌, ◌*◌, Bool, true, false, ◌&&◌, Option, none, some, List, [], ◌∷◌, ◌++◌, length,
  ltb, leb, ◌==◌, if◌then◌else◌,
}
use esp32c3_sms_gateway.Push.Request.{Method, get_method, post_method}

-- `esp_http_client_init` fails, `esp_http_client_perform` fails, or there is an answer with a status.
pub data Outcome : Type 0 where
  no_client transport_error : Outcome
  answered : ℕ → Outcome

abbrev pub is_accepted : Outcome → Bool
is_accepted no_client = false
is_accepted transport_error = false
is_accepted (answered status_code) = leb 200 status_code && ltb status_code 300

-- What is set up on a fresh client.
pub record ClientRequest : Type 0 where
  pub url : List ℕ
  pub method : Method
  pub content : Option (List ℕ × List ℕ)

-- The content type and the payload go out with a POST that has both.
unfoldable pub client_request : List ℕ → Method → Option (List ℕ) → Option (List ℕ) → ClientRequest
client_request url post_method (some payload) (some content_type) = record {
  url = url;
  method = post_method;
  content = some (content_type, payload);
}
client_request url post_method (some payload) none = record {
  url = url;
  method = post_method;
  content = none;
}
client_request url post_method none content_type = record {
  url = url;
  method = post_method;
  content = none;
}
client_request url get_method payload content_type = record {
  url = url;
  method = get_method;
  content = none;
}

-- The result with the number of attempts made and the waits between them, in milliseconds.
pub record Run : Type 0 where
  pub success : Bool
  pub attempts : ℕ
  pub waits : List ℕ

-- The looks at the clock; the result counts the seconds waited. It is at most `more`.
unfoldable pub wait_for_clock : (ℕ → ℕ) → ℕ → ℕ → ℕ
wait_for_clock tm_year zero retry_time = retry_time
wait_for_clock tm_year (suc more) retry_time =
    let later = wait_for_clock tm_year more (suc retry_time) in
    if ltb (tm_year retry_time) 124 then later else retry_time

-- The loop over the attempts, `more` of which are left.
unfoldable pub attempt_loop : (ℕ → Outcome) → ℕ → ℕ → ℕ → List ℕ → Run
attempt_loop perform zero attempt delay_ms waited = record {
  success = false;
  attempts = attempt;
  waits = waited;
}
attempt_loop perform (suc more) attempt delay_ms waited =
    let again = ltb 0 attempt in
    let waited_now = if again then waited ++ delay_ms ∷ [] else waited in
    let later =
      attempt_loop perform more (suc attempt) (if again then delay_ms * 2 else delay_ms)
        waited_now in
    if is_accepted (perform attempt)
    then record { success = true; attempts = suc attempt; waits = waited_now }
    else later

-- `none` is a null pointer. The seconds waited for the clock come first.
unfoldable pub http_util_request :
    (ClientRequest → ℕ → Outcome)
    → (ℕ → ℕ)
    → Option (List ℕ)
    → Method
    → Option (List ℕ)
    → Option (List ℕ)
    → ℕ × Run
http_util_request perform tm_year none method payload content_type =
    (0, record { success = false; attempts = 0; waits = [] })
http_util_request perform tm_year (some url) method payload content_type =
    if length url == 0 then (0, record { success = false; attempts = 0; waits = [] }) else (
      wait_for_clock tm_year 10 0,
      attempt_loop (perform (client_request url method payload content_type)) 4 0 2000 [],
    )
