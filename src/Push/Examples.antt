-- ===== src/Push/Examples.antt =====
-- Texts, channels and messages on which the theorems about the push service are applied.
use esp32c3_sms_gateway.Prelude.{
  ℕ, ◌≤◌, ◌<◌, ◌≡◌, ◌≢◌, ◌⊎◌, inl, inr, refl, arith, Bool, true, false, some, List, [], ◌∷◌, length,
  take, replicate,
}
use esp32c3_sms_gateway.Prelude.Result.{ok, fault}
use esp32c3_sms_gateway.Prelude.Text.{ascii, c_str, copy_str, starts, find_str, find_char}
use esp32c3_sms_gateway.Push.Encode.{encode_loop, url_code, url_encode}
use esp32c3_sms_gateway.Push.Template.{str_replace_inplace}
use esp32c3_sms_gateway.Push.Template.Replace.{
  replace_all, occurs, str_replace_inplace-replace_all, str_replace_inplace-overlap,
}
use esp32c3_sms_gateway.Push.Request.{
  PushChannel, NetInfo, Texts, post_json, get, escaped, json_body, full_query, get_url, target_url,
  build_request, send_to_single_channel,
}
use esp32c3_sms_gateway.Push.Request.Json.{json_object, json_object-json_body}
use esp32c3_sms_gateway.Push.Request.Query.{after, form_members, form_members-get_url}
use esp32c3_sms_gateway.Push.Task.{PushMsg, Target, push_service_send_with_ack, push_pass}
use esp32c3_sms_gateway.Push.Task.Cleanup.{
  IsDelivered, push_pass_deletes, push_service_send_with_ack-long, push_pass_lost,
}

str_replace_inplace-replace_all_example :
    str_replace_inplace (ascii "to {sender}!") (ascii "{sender}") (ascii "+86") 64
    ≡ ok (replace_all (ascii "{sender}") (ascii "+86") 0 (ascii "to {sender}!"))
unfolding replace_all starts
str_replace_inplace-replace_all_example =
    str_replace_inplace-replace_all (ascii "to {sender}!") b'{' (ascii "sender}") (ascii "+86") 64
      (omega arith) (omega arith) (omega arith) (omega arith)

str_replace_inplace-overlap_example :
    str_replace_inplace (ascii "{ip}") (ascii "{ip}") (ascii "192.168.1.10") 64 ≡ fault
unfolding replace_all occurs find_str
str_replace_inplace-overlap_example =
    str_replace_inplace-overlap (ascii "{ip}") b'{' (ascii "ip}") (ascii "192.168.1.10") 64 refl
      (omega arith) (omega arith) (omega arith) (omega arith)

abbrev texts : Texts
texts = record { sender = ascii "+1"; message = ascii "a\"b"; timestamp = ascii "9" }

json_object-json_body_example :
    json_object (json_body (escaped texts))
    ≡ some (
        (ascii "sender", texts.sender)
        ∷ (ascii "message", texts.message)
        ∷ (ascii "timestamp", texts.timestamp)
        ∷ [])
json_object-json_body_example = json_object-json_body texts (record {
  sender_text = (inl (omega arith), (inl (omega arith), tt));
  message_text = (inl (omega arith), (inl (omega arith), (inl (omega arith), tt)));
  timestamp_text = (inl (omega arith), tt);
  sender_fits = omega arith;
  message_fits = omega arith;
  timestamp_fits = omega arith;
})

texts_fit : length (full_query (ascii "h.x") texts) < 1536
unfolding full_query url_encode find_char encode_loop url_code
texts_fit = omega arith

form_members-get_url_example :
    form_members (after b'?' (get_url (ascii "h.x") texts))
    ≡ (some (ascii "sender"), some texts.sender)
      ∷ (some (ascii "message"), some texts.message)
      ∷ (some (ascii "timestamp"), some texts.timestamp)
      ∷ []
form_members-get_url_example =
    form_members-get_url (ascii "h.x") texts (ground arith, (ground arith, (ground arith, tt)))
      (record {
        sender_bytes = (omega arith, (omega arith, tt));
        message_bytes = (omega arith, (omega arith, (omega arith, tt)));
        timestamp_bytes = (omega arith, tt);
        sender_fits = omega arith;
        message_fits = omega arith;
        timestamp_fits = omega arith;
      })
      texts_fit

abbrev net : NetInfo
net = record { apn = []; isp = []; phone = []; ip = []; mac = [] }

abbrev json_channel : Bool → PushChannel
json_channel enabled = record {
  enabled = enabled;
  kind = post_json;
  url = ascii "h.x";
  key1 = [];
  key2 = [];
  custom_body = [];
}

-- A channel that is switched off, one that fails, and one that succeeds.
abbrev three_targets : List Target
three_targets =
    record { channel = json_channel false; http = λ r. true; net = net }
    ∷ record { channel = json_channel true; http = λ r. false; net = net }
    ∷ record { channel = json_channel true; http = λ r. true; net = net }
    ∷ []

abbrev short_msg : PushMsg
short_msg = record { texts = texts; sms_indexes = 4 ∷ 5 ∷ [] }

push_pass_deletes_example :
    ((push_pass three_targets short_msg ≡ ok (4 ∷ 5 ∷ [])) × IsDelivered texts three_targets)
    ⊎ ((push_pass three_targets short_msg ≡ ok []) × (IsDelivered texts three_targets → ⊥))
unfolding send_to_single_channel build_request
push_pass_deletes_example =
    push_pass_deletes three_targets short_msg ((false, refl), ((false, refl), ((true, refl), tt)))

-- A message of 600 characters.
abbrev long_text : List ℕ
long_text = replicate 600 b'a'

push_service_send_with_ack-long_example :
    (msg : PushMsg) × (push_service_send_with_ack true
        (some (ascii "+1"))
        (some long_text)
        (some (ascii "9"))
        (7 ∷ [])
      ≡ some msg)
    × (msg.texts.message ≡ take 511 long_text)
    × (msg.texts.message ≢ long_text)
    × (push_pass three_targets msg ≡ ok (7 ∷ []))
unfolding send_to_single_channel build_request c_str
push_service_send_with_ack-long_example =
    push_service_send_with_ack-long (ascii "+1") long_text (ascii "9") (7 ∷ []) three_targets refl
      (omega arith) (omega arith) ((false, refl), ((false, refl), ((true, refl), tt)))
      (inr (inr (inl (refl, refl))))

abbrev get_target : Target
get_target = record {
  channel = record {
    enabled = true;
    kind = get;
    url = ascii "h.x";
    key1 = [];
    key2 = [];
    custom_body = [];
  };
  http = λ r. true;
  net = net;
}

-- A message of 511 bytes, each of which takes three in the address.
abbrev wide_msg : PushMsg
wide_msg = record {
  texts = record { sender = []; message = replicate 511 0xe4; timestamp = [] };
  sms_indexes = 7 ∷ [];
}

wide_long : 1536 ≤ length (full_query (target_url get_target.channel) wide_msg.texts)
unfolding full_query url_encode find_char encode_loop url_code target_url copy_str c_str
wide_long = omega arith

push_pass_lost_example : push_pass (get_target ∷ []) wide_msg ≡ ok (7 ∷ [])
push_pass_lost_example = push_pass_lost get_target wide_msg refl refl (omega arith) wide_long refl
