-- ===== src/Esim/Operation.antt =====
-- The operations on a profile in esim_manager.c: the request, the answer that the card gives, and the
-- attempts of `esim_manager_switch_profile`. `set_error` only keeps a text for messages.
pub mod Answers
use esp32c3_sms_gateway.Prelude.{
  ℕ, zero, suc, ◌+◌, ◌%◌, ◌^◌, bit_or, Bool, true, false, ◌&&◌, ◌||◌, Option, none, some, List, [],
  ◌∷◌, ◌++◌, length, take, drop, ltb, ◌==◌, leb, if◌then◌else◌,
}
use esp32c3_sms_gateway.Prelude.Bits.{◌<<<◌}
use esp32c3_sms_gateway.Prelude.Result.{
  EspErr, fail, invalid_arg, not_supported, Result, ok, err, fault, stuck,
}
use esp32c3_sms_gateway.Prelude.Text.{ascii, find_str, bytes_eq}
use esp32c3_sms_gateway.Esim.Tlv.{TlvNode, read_tlv, find_child_tag, append_tlv}
use esp32c3_sms_gateway.Esim.Profile.{
  build_profile_identifier, Request, standard_request, nested_request,
}
use esp32c3_sms_gateway.Modem.Dialogue.{Modem, Io, ◌>>=◌, pure, try, send}
use esp32c3_sms_gateway.Esim.Channel.{bytes_to_hex, says}
use esp32c3_sms_gateway.Esim.Es10x.{es10x_command}

-- The code that an operation returns (`none` is ESP_OK), and `*out_sw` (`none` is -1).
pub record Verdict : Type 0 where
  pub code : Option EspErr
  pub sw : Option ℕ

abbrev pub refused : Verdict
refused = record { code = some fail; sw = none }

abbrev pub node_value : List ℕ → TlvNode → List ℕ
node_value bytes node = take node.len (drop node.value bytes)

-- A value is read where it lies in its bytes. With a length that wraps around, the code would read
-- behind them: a fault, at once.
abbrev pub inside {ℓ} : {A : Type ℓ} → List ℕ → TlvNode → Result A → Result A
inside bytes node r = if leb (node.value + node.len) (length bytes) then r else fault

-- The child of a value, `none` where there is none; a search that goes on for ever is `stuck`.
abbrev pub child : List ℕ → ℕ → Result (Option TlvNode)
child value tag = find_child_tag (suc (length value)) value 0 tag

-- The `int` that the loops over a value build, by its 32-bit pattern.
unfoldable pub value_number : ℕ → List ℕ → ℕ
value_number r [] = r
value_number r (b ∷ bytes) = value_number (bit_or ((r <<< 8) % 2 ^ 32) b) bytes

-- What the answer of a lookup decides.
abbrev pub on_child {ℓ} :
    {A : Type ℓ} → Result (Option TlvNode) → Result A → (TlvNode → Result A) → Result A
on_child (ok none) absent present = absent
on_child (ok (some node)) absent present = present node
on_child (err e) absent present = err e
on_child fault absent present = fault
on_child stuck absent present = stuck

-- The outer item of an answer.
abbrev pub on_top {ℓ} : {A : Type ℓ} → Result TlvNode → Result A → (TlvNode → Result A) → Result A
on_top (ok top) absent present = present top
on_top (err e) absent present = absent
on_top fault absent present = fault
on_top stuck absent present = stuck

-- What `send_profile_apdu_flavor` makes of the answer of the card.
unfoldable pub flavor_answer : ℕ → List ℕ → Result Verdict
flavor_answer outer_tag resp = on_top (read_tlv resp 0) (ok refused) (λ top.
    let value = node_value resp top in
    if top.tag == outer_tag
    then inside resp top (
        on_child (child value 0x80)
          (on_child (child value 0xa0)
            (on_child (child value 0x81) (ok refused) (λ node. inside value node (
              ok
                (record { code = some fail; sw = some (value_number 0 (node_value value node)) }))))
            (λ node. ok (record { code = none; sw = some 0 })))
          (λ node. ok (record { code = none; sw = some 0 })))
    else ok refused)

-- What `profile_operation` makes of the answer to a deletion.
unfoldable pub delete_answer : List ℕ → Result Verdict
delete_answer resp = on_top (read_tlv resp 0) (ok refused) (λ top.
    let value = node_value resp top in
    inside resp top (
      on_child (child value 0x80) (ok refused) (λ node.
        let r = value_number 0 (node_value value node) in
        inside value node
          (ok (record { code = if r == 0 then none else some fail; sw = some r })))))

unfoldable pub check_cmds : List (List ℕ) → Io (Unit {0})
check_cmds [] = pure (ok tt)
check_cmds (cmd ∷ cmds) = do
  r ← send cmd
  elim r.status [
    | none ↦ if says (ascii "OK") r.text then check_cmds cmds else pure (err not_supported)
    | some e ↦ pure (err not_supported)
  ]

-- `s_esim_supported` is whether this ends well.
unfoldable pub esim_manager_init : Io (Unit {0})
esim_manager_init = check_cmds (ascii "AT+CCHO=?" ∷ ascii "AT+CCHC=?" ∷ ascii "AT+CGLA=?" ∷ [])

module _ (rounds : ℕ) (atoi : List ℕ → ℕ) where
  -- A request whose answer is read by `f`; `failed` chooses the code where there is none.
  abbrev pub ask : List ℕ → (EspErr → EspErr) → (List ℕ → Result Verdict) → Io Verdict
  ask req failed f = try (es10x_command rounds atoi req) >>= λ got. pure (elim got [
    | ok resp ↦ f resp
    | err e ↦ ok (record { code = some (failed e); sw = none })
    | fault ↦ fault
    | stuck ↦ stuck
  ])

  unfoldable pub send_profile_apdu_flavor : ℕ → List ℕ → Bool → ℕ → Io Verdict
  send_profile_apdu_flavor outer_tag id_tlv refresh flavor =
      if flavor == 1
      then ask (standard_request outer_tag id_tlv refresh).req (λ e. e) (flavor_answer outer_tag)
      else if flavor == 2
      then ask (nested_request outer_tag id_tlv refresh).req (λ e. e) (flavor_answer outer_tag)
      else pure (ok (record { code = some invalid_arg; sw = none }))

  abbrev pub is_done : Verdict → Bool
  is_done o = elim o.code [ none ↦ elim o.sw [ none ↦ false | some sw ↦ sw == 0 ] | some e ↦ false ]

  unfoldable pub profile_operation : ℕ → List ℕ → Bool → Bool → Io Verdict
  profile_operation outer_tag id_text refresh lpac_nested_format =
      elim (build_profile_identifier id_text 24) [
        | ok id_tlv ↦
            if outer_tag == 0xbf33
            then ask (append_tlv [] outer_tag id_tlv) (λ e. fail) delete_answer
            else (do
              o ←
                  send_profile_apdu_flavor outer_tag id_tlv refresh
                    (if lpac_nested_format then 2 else 1)
              pure (ok (record { code = if is_done o then none else some fail; sw = o.sw })))
        | err e ↦ pure (ok (record { code = some invalid_arg; sw = none }))
        | fault ↦ pure fault
        | stuck ↦ pure stuck
      ]

  unfoldable pub esim_manager_enable_profile : List ℕ → Bool → Io Verdict
  esim_manager_enable_profile iccid_or_aid refresh =
      profile_operation 0xbf31 iccid_or_aid refresh false

  unfoldable pub esim_manager_disable_profile : List ℕ → Bool → Io Verdict
  esim_manager_disable_profile iccid_or_aid refresh =
      profile_operation 0xbf32 iccid_or_aid refresh false

  unfoldable pub esim_manager_delete_profile : List ℕ → Io Verdict
  esim_manager_delete_profile iccid_or_aid = profile_operation 0xbf33 iccid_or_aid false false
