-- ===== src/Esim/Cards.antt =====
-- What esim_manager.c reads from the card: its identifier and the list of profiles, which it keeps for
-- `esim_manager_switch_profile`.
pub mod Switch
use esp32c3_sms_gateway.Prelude.{
  ℕ, zero, suc, ◌+◌, ◌-◌, Bool, true, false, ◌&&◌, ◌||◌, not, Option, none, some, List, [], ◌∷◌,
  ◌++◌, get_elem?, length, take, drop, ltb, ◌==◌, if◌then◌else◌,
}
use esp32c3_sms_gateway.Prelude.Result.{EspErr, fail, invalid_arg, Result, ok, err, fault, stuck}
use esp32c3_sms_gateway.Prelude.Text.{ascii, bytes_eq, c_str}
use esp32c3_sms_gateway.Esim.Tlv.{TlvNode, read_tlv}
use esp32c3_sms_gateway.Esim.Bcd.{bcd_to_iccid}
use esp32c3_sms_gateway.Modem.Dialogue.{Modem, Io, ◌>>=◌, pure, try}
use esp32c3_sms_gateway.Esim.Channel.{bytes_to_hex}
use esp32c3_sms_gateway.Esim.Es10x.{es10x_command}
use esp32c3_sms_gateway.Esim.Operation.{
  Verdict, node_value, inside, child, on_child, on_top, profile_operation,
}

-- `esim_profile_t`; -1 is `none`, and a state is the byte that the card gives.
pub record EsimProfile : Type 0 where
  pub iccid : List ℕ
  pub isdp_aid : List ℕ
  pub state : Option ℕ
  pub nickname : List ℕ
  pub service_provider_name : List ℕ
  pub profile_name : List ℕ
  pub profile_class : Option ℕ

abbrev pub unknown_profile : EsimProfile
unknown_profile = record {
  iccid = [];
  isdp_aid = [];
  state = none;
  nickname = [];
  service_provider_name = [];
  profile_name = [];
  profile_class = none;
}

-- "%.*s" into an array of 64 bytes.
abbrev pub name_text : List ℕ → List ℕ
name_text value = take 63 (c_str value)

-- The switch over the tag of an item.
unfoldable pub set_field : ℕ → List ℕ → EsimProfile → EsimProfile
set_field tag value p =
    if tag == 0x5a
    then record p { iccid = bcd_to_iccid value 20 }
    else if tag == 0x4f
    then record p { isdp_aid = bytes_to_hex value 40 }
    else if tag == 0x9f70
    then record p { state = get_elem? value 0 }
    else if tag == 0x90
    then record p { nickname = name_text value }
    else if tag == 0x91
    then record p { service_provider_name = name_text value }
    else if tag == 0x92
    then record p { profile_name = name_text value }
    else if tag == 0x95
    then (if length value == 0 then p else record p { profile_class = get_elem? value 0 })
    else p

unfoldable pub parse_profile_node_content : ℕ → List ℕ → ℕ → EsimProfile → Result EsimProfile
parse_profile_node_content zero bytes pos p = stuck
parse_profile_node_content (suc fuel) bytes pos p = on_top (read_tlv bytes pos) (ok p) (λ c.
    inside bytes c (
      parse_profile_node_content fuel bytes c.next_offset (set_field c.tag (node_value bytes c) p)))

-- A result and what is done with it, an error being one too.
abbrev pub also {ℓ κ} : {A : Type ℓ} {B : Type κ} → Result A → (A → Result B) → Result B
also (ok a) f = f a
also (err e) f = err e
also fault f = fault
also stuck f = stuck

abbrev pub is_profile_tag : ℕ → Bool
is_profile_tag tag = tag == 0xe3 || tag == 0xbf25

abbrev pub is_container_tag : ℕ → Bool
is_container_tag tag = tag == 0xa0 || (tag == 0xbf2d || tag == 0xbf23)

-- The profiles found so far stand for the array and its count.
unfoldable pub scan_profiles_in_tlv :
    ℕ → List ℕ → ℕ → ℕ → List EsimProfile → Result (List EsimProfile)
scan_profiles_in_tlv zero bytes pos max_count profiles = stuck
scan_profiles_in_tlv (suc fuel) bytes pos max_count profiles =
    if ltb (length profiles) max_count
    then on_top (read_tlv bytes pos) (ok profiles) (λ n.
      if is_profile_tag n.tag
      then also
          (inside bytes n
            (parse_profile_node_content (suc n.len) (node_value bytes n) 0 unknown_profile))
          (λ p. scan_profiles_in_tlv fuel bytes n.next_offset max_count (profiles ++ p ∷ []))
      else if is_container_tag n.tag
      then also
          (inside bytes n (scan_profiles_in_tlv fuel (node_value bytes n) 0 max_count profiles))
          (λ more. scan_profiles_in_tlv fuel bytes n.next_offset max_count more)
      else scan_profiles_in_tlv fuel bytes n.next_offset max_count profiles)
    else ok profiles

-- What `esim_manager_get_eid` makes of the answer; `none` is none.
unfoldable pub eid_bytes : List ℕ → Result (Option (List ℕ))
eid_bytes resp =
    let whole = if length resp == 16 then some resp else none in
    on_top (read_tlv resp 0) (ok whole) (λ top.
      let value = node_value resp top in
      if top.tag == 0xbf3e
      then inside resp top (
          on_child (child value 0x5a) (ok whole)
            (λ node. inside value node (ok (some (node_value value node)))))
      else if top.tag == 0x5a
      then inside resp top (ok (some value))
      else ok whole)

module _ (rounds : ℕ) (atoi : List ℕ → ℕ) where
  unfoldable pub esim_manager_get_eid : ℕ → Io (List ℕ)
  esim_manager_get_eid buf_size = if ltb buf_size 33 then pure (err invalid_arg) else (do
    resp ← es10x_command rounds atoi (0xbf ∷ 0x3e ∷ 0x03 ∷ 0x5c ∷ 0x01 ∷ 0x5a ∷ [])
    found ← pure (eid_bytes resp)
    elim found [
      | none ↦ pure (err fail)
      | some eid ↦
          if length eid == 0 then pure (err fail) else pure (ok (bytes_to_hex eid buf_size))
    ])

  abbrev pub list_request : List ℕ
  list_request =
      0xbf ∷ 0x2d ∷ 0x0a ∷ 0x5c ∷ 0x08 ∷ 0x5a ∷ 0x4f ∷ 0x9f ∷ 0x70 ∷ 0x90 ∷ 0x91 ∷ 0x92 ∷ 0x95 ∷ []

  -- The profiles of an answer; the scan has a step for each byte of it.
  unfoldable pub listed_profiles : List ℕ → ℕ → Result (List EsimProfile)
  listed_profiles resp max_count = on_top (read_tlv resp 0) (err fail) (λ top.
      if top.tag == 0xbf2d
      then inside resp top (scan_profiles_in_tlv (suc top.len) (node_value resp top) 0 max_count [])
      else err fail)

  -- The profiles found, and the cache, which keeps ten of them.
  unfoldable pub esim_manager_get_profiles : ℕ → Io (List EsimProfile × List EsimProfile)
  esim_manager_get_profiles max_count = if max_count == 0 then pure (err invalid_arg) else (do
    got ← try (es10x_command rounds atoi list_request)
    resp ← pure (elim got [ ok resp ↦ ok resp | err e ↦ err fail | fault ↦ fault | stuck ↦ stuck ])
    profiles ← pure (listed_profiles resp max_count)
    pure (ok (profiles, take 10 profiles)))

-- The AID of the first cached profile whose ICCID starts like the argument, as `strncmp` over the
-- length of the argument sees it; otherwise the argument.
unfoldable pub cached_aid : List EsimProfile → List ℕ → List ℕ
cached_aid [] iccid_or_aid = iccid_or_aid
cached_aid (p ∷ profiles) iccid_or_aid =
    let later = cached_aid profiles iccid_or_aid in
    if bytes_eq (take (length iccid_or_aid) p.iccid) iccid_or_aid then p.isdp_aid else later

unfoldable pub target_aid : List EsimProfile → List ℕ → List ℕ
target_aid cached iccid_or_aid =
    if length iccid_or_aid == 19 || length iccid_or_aid == 20
    then cached_aid cached iccid_or_aid
    else iccid_or_aid

abbrev pub has_succeeded : Verdict → Bool
has_succeeded o = elim o.code [ none ↦ true | some e ↦ false ]

-- "CAT busy"
abbrev pub is_busy : Verdict → Bool
is_busy o = elim o.sw [ none ↦ false | some sw ↦ sw == 5 ]

-- A further attempt after a verdict that is busy.
abbrev pub retry_busy : Io Verdict → Verdict → Io Verdict
retry_busy attempt o =
    if has_succeeded o then pure (ok o) else if is_busy o then attempt else pure (ok o)

-- With a refresh, then without, then in the nested form.
unfoldable pub esim_manager_switch_profile :
    ℕ → (List ℕ → ℕ) → List EsimProfile → List ℕ → Io Verdict
esim_manager_switch_profile rounds atoi cached iccid_or_aid = do
  let aid = target_aid cached iccid_or_aid
  standard ← profile_operation rounds atoi 0xbf31 aid true false
  quiet ← retry_busy (profile_operation rounds atoi 0xbf31 aid false false) standard
  retry_busy (profile_operation rounds atoi 0xbf31 aid false true) quiet
