-- ===== src/Esim/Cards/Switch.antt =====
-- What `esim_manager_switch_profile` makes of the result code of the card.
use esp32c3_sms_gateway.Prelude.{ℕ, ◌≡◌, refl, ap, true, false, none, some, List}
use esp32c3_sms_gateway.Prelude.Result.{ok}
use esp32c3_sms_gateway.Esim.Profile.{build_profile_identifier, standard_request}
use esp32c3_sms_gateway.Modem.Dialogue.{Modem}
use esp32c3_sms_gateway.Esim.Es10x.{es10x_command}
use esp32c3_sms_gateway.Esim.Operation.{send_profile_apdu_flavor, profile_operation}
use esp32c3_sms_gateway.Esim.Operation.Answers.{result_answer, flavor_answer-result_answer}
use esp32c3_sms_gateway.Esim.Cards.{EsimProfile, target_aid, esim_manager_switch_profile}

enable-result_answer :
    (rounds : ℕ) (atoi : List ℕ → ℕ) (id_text id_tlv : List ℕ) (m : Modem) (code : ℕ)
    → build_profile_identifier id_text 24 ≡ ok id_tlv
    → (es10x_command rounds atoi (standard_request 0xbf31 id_tlv true).req m).0
      ≡ ok (result_answer 0xbf31 code)
    → profile_operation rounds atoi 0xbf31 id_text true false m ≡ (
      ok (record { code = none; sw = some 0 }),
      (es10x_command rounds atoi (standard_request 0xbf31 id_tlv true).req m).1,
    )
unfolding profile_operation send_profile_apdu_flavor
enable-result_answer rounds atoi id_text id_tlv m code coded answered =
    let req = (standard_request 0xbf31 id_tlv true).req in
    let pair : es10x_command rounds atoi req m
        ≡ (ok (result_answer 0xbf31 code), (es10x_command rounds atoi req m).1) =
      ap (λ r. (r, (es10x_command rounds atoi req m).1)) answered in
    rw (coded, profile_operation) (rw (pair, flavor_answer-result_answer code) refl)

-- Where the card answers the first request with a result code in an item 0x80, the switch reports
-- success whatever the code is, that of a busy card (5) too, and makes no other attempt.
pub esim_manager_switch_profile-result_answer :
    (rounds : ℕ) (atoi : List ℕ → ℕ) (cached : List EsimProfile) (iccid_or_aid id_tlv : List ℕ)
    (m : Modem) (code : ℕ)
    → build_profile_identifier (target_aid cached iccid_or_aid) 24 ≡ ok id_tlv
    → (es10x_command rounds atoi (standard_request 0xbf31 id_tlv true).req m).0
      ≡ ok (result_answer 0xbf31 code)
    → esim_manager_switch_profile rounds atoi cached iccid_or_aid m ≡ (
      ok (record { code = none; sw = some 0 }),
      (es10x_command rounds atoi (standard_request 0xbf31 id_tlv true).req m).1,
    )
unfolding esim_manager_switch_profile
esim_manager_switch_profile-result_answer rounds atoi cached iccid_or_aid id_tlv m code coded
      answered =
    rw
      (
        enable-result_answer rounds atoi (target_aid cached iccid_or_aid) id_tlv m code coded
            answered,
        esim_manager_switch_profile,
      )
      refl
