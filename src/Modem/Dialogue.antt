-- ===== src/Modem/Dialogue.antt =====
-- A stretch of the dialogue of a component with the modem: the answers that this gives to
-- `modem_send_at_command`, one for each command, and the commands sent so far. Behind the answers
-- every command of the stretch times out.
use esp32c3_sms_gateway.Prelude.{ℕ, Option, some, List, [], ◌∷◌, ◌++◌}
use esp32c3_sms_gateway.Prelude.Result.{EspErr, timeout, Result, ok, err, fault, stuck}

-- The code that `modem_send_at_command` returns (`none` is ESP_OK), and the text that it leaves.
pub record Reply : Type 0 where
  pub status : Option EspErr
  pub text : List ℕ

pub record Modem : Type 0 where
  pub answers : List Reply
  pub sent : List (List ℕ)

-- A step of the dialogue, which can fail.
abbrev pub Io {ℓ} : Type ℓ → Type ℓ
Io A = Modem → Result A × Modem

abbrev pub next {ℓ κ} : {A : Type ℓ} {B : Type κ} → (A → Io B) → Result A × Modem → Result B × Modem
next f (ok a, m) = f a m
next f (err e, m) = (err e, m)
next f (fault, m) = (fault, m)
next f (stuck, m) = (stuck, m)

infixl 5 ◌>>=◌
abbrev pub ◌>>=◌ {ℓ κ} : {A : Type ℓ} {B : Type κ} → Io A → (A → Io B) → Io B
(step >>= f) m = next f (step m)

abbrev pub pure {ℓ} : {A : Type ℓ} → Result A → Io A
pure r m = (r, m)

-- A step whose failure is handled by what follows.
abbrev pub try {ℓ} : {A : Type ℓ} → Io A → Io (Result A)
try step m = let (r, later) = step m in (ok r, later)

-- A modem that has no answer left is silent.
unfoldable pub send : List ℕ → Io Reply
send cmd m = elim m.answers [
  | [] ↦ (
    ok (record { status = some timeout; text = [] }),
    record { answers = []; sent = m.sent ++ cmd ∷ [] },
  )
  | a ∷ answers ↦ (ok a, record { answers = answers; sent = m.sent ++ cmd ∷ [] })
]
