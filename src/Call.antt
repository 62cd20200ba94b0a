-- ===== src/Call.antt =====
-- components/call_processor/call_processor.c: the caller's number of a ringing call, and the push.
-- The time text comes from the C library.
pub mod Caller
mod Examples
use esp32c3_sms_gateway.Prelude.{
  ℕ, ◌-◌, ◌+◌, Bool, true, false, Option, none, some, List, [], ◌∷◌, ◌++◌, length, take, drop, ltb,
  leb, ◌==◌, if◌then◌else◌,
}
use esp32c3_sms_gateway.Prelude.Text.{copy_str, find_char}

-- A call of `push_service_send`.
pub record CallPush : Type 0 where
  pub sender : List ℕ
  pub message : List ℕ
  pub timestamp : List ℕ

-- The text between the quotes, cut to 31 characters, where `behind` is the text behind the first one.
unfoldable pub quoted : List ℕ → List ℕ → List ℕ
quoted payload behind = elim (find_char b'"' behind) [
  | none ↦ copy_str 32 payload
  | some end ↦
      let len = length behind - length end in
      if ltb 0 len then take (if leb 32 len then 31 else len) behind else copy_str 32 payload
]

-- `caller`
unfoldable pub caller_of : List ℕ → List ℕ
caller_of payload = elim (find_char b'"' payload) [
  | none ↦ copy_str 32 payload
  | some start ↦ quoted payload (drop 1 start)
]

-- "来电响铃，号码: "
abbrev pub ringing : List ℕ
ringing =
    0xe6 ∷ 0x9d ∷ 0xa5 ∷ 0xe7 ∷ 0x94 ∷ 0xb5 ∷ 0xe5 ∷ 0x93 ∷ 0x8d ∷ 0xe9 ∷ 0x93 ∷ 0x83 ∷ 0xef ∷ 0xbc
    ∷ 0x8c ∷ 0xe5 ∷ 0x8f ∷ 0xb7 ∷ 0xe7 ∷ 0xa0 ∷ 0x81 ∷ 0x3a ∷ 0x20 ∷ []

-- "未知"
abbrev pub unknown_caller : List ℕ
unknown_caller = 0xe6 ∷ 0x9c ∷ 0xaa ∷ 0xe7 ∷ 0x9f ∷ 0xa5 ∷ []

-- `handle_call_ringing`; `none` is a null payload.
unfoldable pub handle_call_ringing : Bool → List ℕ → Option (List ℕ) → Option CallPush
handle_call_ringing call_notify_enabled timestamp none = none
handle_call_ringing call_notify_enabled timestamp (some payload) =
    let caller = caller_of payload in
    let shown = if length caller == 0 then unknown_caller else caller in
    if call_notify_enabled
    then some
        (record { sender = caller; message = take 127 (ringing ++ shown); timestamp = timestamp })
    else none
