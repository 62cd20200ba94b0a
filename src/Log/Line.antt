-- ===== src/Log/Line.antt =====
-- The line of `log_service_build_syslog_payload`, and what a syslog server reads of its head.
use esp32c3_sms_gateway.Prelude.{
  ℕ, suc, ◌+◌, ◌-◌, ◌*◌, ◌/◌, ◌%◌, ◌≤◌, ◌<◌, ◌≡◌, ◌⊎◌, inl, inr, refl, ap, ◌∙◌, arith, true, false,
  Bool-cases, Option, none, some, List, [], ◌∷◌, ◌++◌, ◌&&◌, length, take, take-append_le,
  take-append_ge, ltb, ◌==◌, if◌then◌else◌,
}
use esp32c3_sms_gateway.Prelude.Text.{ascii, copy_str}

-- `esp_log_level_t`; `other` is every other number.
pub data Level : Type 0 where
  error warn info debug verbose other : Level

unfoldable pub log_service_severity : Level → ℕ
log_service_severity error = 3
log_service_severity warn = 4
log_service_severity info = 6
log_service_severity debug = 7
log_service_severity verbose = 7
log_service_severity other = 6

abbrev dash : List ℕ
dash = ascii "-"

-- `none` is a clock that does not stand past 0 or cannot be converted.
abbrev pub log_service_build_timestamp : Option (List ℕ) → List ℕ
log_service_build_timestamp none = dash
log_service_build_timestamp (some t) = take 31 t

-- The cache of the host name (`none` while it is not ready), and the name. `gethostname` is the
-- name that the function gives, `none` where it fails.
unfoldable pub log_service_get_hostname :
    Option (List ℕ) → Option (List ℕ) → Option (List ℕ) × List ℕ
log_service_get_hostname (some cached) gethostname = (some cached, copy_str 64 cached)
log_service_get_hostname none none = (some dash, dash)
log_service_get_hostname none (some name) =
    let cached = if length name == 0 then dash else name in (some cached, copy_str 64 cached)

-- `none` where there is no interface, no address, or no text for it.
abbrev pub log_service_get_ipaddr : Option (List ℕ) → List ℕ
log_service_get_ipaddr none = dash
log_service_get_ipaddr (some ip) = ip

-- Where and when a line is made.
pub record Origin : Type 0 where
  pub timestamp : List ℕ
  pub hostname : List ℕ
  pub ip_address : List ℕ

-- "%d" of the priority, which has two digits.
abbrev pub two_digits : ℕ → List ℕ
two_digits n = (b'0' + n / 10) ∷ (b'0' + n % 10) ∷ []

unfoldable pub line_head : Level → Origin → List ℕ → List ℕ
line_head level o tag =
    b'<' ∷ two_digits (16 + log_service_severity level)
    ++ (ascii ">1 "
        ++ (o.timestamp
            ++ (b' ' ∷ o.hostname
                ++ (b' ' ∷ o.ip_address
                    ++ (b' ' ∷ o.hostname ++ (ascii " - " ++ (tag ++ ascii ": ")))))))

-- The two writes into an array of `out_len` bytes.
unfoldable pub log_service_build_syslog_payload : Level → Origin → List ℕ → List ℕ → ℕ → List ℕ
log_service_build_syslog_payload level o tag message out_len =
    let head = line_head level o tag in
    if ltb (length head) out_len
    then head ++ take (out_len - length head - 1) message
    else take (out_len - 1) head

-- What a server reads between the angle brackets: the facility and the severity.
unfoldable pub read_priority : List ℕ → Option (ℕ × ℕ)
read_priority (lt ∷ a ∷ b ∷ gt ∷ s) =
    let pri = (a - b'0') * 10 + (b - b'0') in
    if lt == b'<' && gt == b'>' then some (pri / 8, pri % 8) else none
read_priority _ = none

payload-take :
    (level : Level) (o : Origin) (tag message : List ℕ) (out_len : ℕ)
    → log_service_build_syslog_payload level o tag message out_len
      ≡ take (out_len - 1) (line_head level o tag ++ message)
unfolding log_service_build_syslog_payload
payload-take level o tag message out_len =
    go (line_head level o tag) (Bool-cases (ltb (length (line_head level o tag)) out_len))
  where
    go :
        (head : List ℕ)
        → (ltb (length head) out_len ≡ true) ⊎ (ltb (length head) out_len ≡ false)
        → (if ltb (length head) out_len
            then head ++ take (out_len - length head - 1) message
            else take (out_len - 1) head)
          ≡ take (out_len - 1) (head ++ message)
    go head (inl fits) =
        let small : length head < out_len = ground (arith, fits) in
        let same : out_len - length head - 1 ≡ out_len - 1 - length head = omega arith in
        rw (fits, same, take-append_ge (out_len - 1) head message (omega (arith, small))) refl
    go head (inr long) =
        let large : out_len ≤ length head = ground (arith, long) in
        rw (long, take-append_le (out_len - 1) head message (omega (arith, large))) refl

read_priority-line :
    (level : Level) (o : Origin) (tag message : List ℕ) (k : ℕ)
    → read_priority (take (suc (suc (suc (suc k)))) (line_head level o tag ++ message))
      ≡ some (2, log_service_severity level)
unfolding read_priority line_head log_service_severity
read_priority-line error o tag message k = refl
read_priority-line warn o tag message k = refl
read_priority-line info o tag message k = refl
read_priority-line debug o tag message k = refl
read_priority-line verbose o tag message k = refl
read_priority-line other o tag message k = refl

-- The two writes give the line that one write of all of it would, cut to the array; and where
-- this has room for the priority, a server reads the severity of the level and the facility 2.
pub log_service_build_syslog_payload_lem :
    (level : Level) (o : Origin) (tag message : List ℕ) (out_len : ℕ)
    → 5 ≤ out_len
    → (log_service_build_syslog_payload level o tag message out_len
        ≡ take (out_len - 1) (line_head level o tag ++ message))
      × (read_priority (log_service_build_syslog_payload level o tag message out_len)
          ≡ some (2, log_service_severity level))
log_service_build_syslog_payload_lem level o tag message out_len room =
    let four : out_len - 1 ≡ suc (suc (suc (suc (out_len - 5)))) = omega (arith, room) in
    let line = payload-take level o tag message out_len in
    (
      line,
      ap read_priority (line ∙ ap (λ n. take n (line_head level o tag ++ message)) four)
          ∙ read_priority-line level o tag message (out_len - 5),
    )
