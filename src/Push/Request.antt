-- ===== src/Push/Request.antt =====
-- The request that `send_to_single_channel` of push_service.c builds for a channel.
pub mod Json
pub mod Query
use esp32c3_sms_gateway.Prelude.{
  ℕ, ◌+◌, ◌-◌, Bool, true, false, Option, none, some, List, [], ◌∷◌, ◌++◌, length, take, get_elem?,
  ltb, leb, ◌==◌, if◌then◌else◌,
}
use esp32c3_sms_gateway.Prelude.Result.{Result, ok, fault, read, ◌>>=◌}
use esp32c3_sms_gateway.Prelude.Text.{ascii, copy_str, find_char}
use esp32c3_sms_gateway.Push.Encode.{url_encode, json_escape}
use esp32c3_sms_gateway.Push.Template.{str_replace_inplace}

-- `push_type_t`; `no_push` is PUSH_TYPE_NONE and every other value.
pub data PushType : Type 0 where
  post_json bark get server_chan custom gotify telegram no_push : PushType

-- `push_channel_t` without its name, which is only logged.
pub record PushChannel : Type 0 where
  pub enabled : Bool
  pub kind : PushType
  pub url : List ℕ
  pub key1 : List ℕ
  pub key2 : List ℕ
  pub custom_body : List ℕ

-- What is known of the network: the cached texts of the modem, and the addresses of the station.
pub record NetInfo : Type 0 where
  pub apn : List ℕ
  pub isp : List ℕ
  pub phone : List ℕ
  pub ip : List ℕ
  pub mac : List ℕ

pub data Method : Type 0 where
  get_method post_method : Method

-- The arguments of `http_util_request`.
pub record HttpRequest : Type 0 where
  pub url : List ℕ
  pub method : Method
  pub payload : List ℕ
  pub content_type : List ℕ

pub record Texts : Type 0 where
  pub sender : List ℕ
  pub message : List ℕ
  pub timestamp : List ℕ

-- `URL_BUF_SIZE` and `PAYLOAD_BUF_SIZE`
abbrev pub buf_size : ℕ
buf_size = 1536

-- `snprintf` into an array of `size` bytes.
abbrev pub printed : ℕ → List ℕ → List ℕ
printed size s = take (size - 1) s

abbrev pub json_type : List ℕ
json_type = ascii "application/json"

-- `esc_sender`, `esc_message` and `esc_time`
abbrev pub escaped : Texts → Texts
escaped t = record {
  sender = json_escape t.sender 128;
  message = json_escape t.message 1024;
  timestamp = json_escape t.timestamp 64;
}

-- The address before the switch.
unfoldable pub target_url : PushChannel → List ℕ
target_url ch =
    let url = copy_str buf_size ch.url in
    if length url == 0
    then elim ch.kind [
      | server_chan ↦
          printed buf_size (ascii "https://sctapi.ftqq.com/" ++ (ch.key1 ++ ascii ".send"))
      | telegram ↦
          printed buf_size
            (ascii "https://api.telegram.org/bot" ++ (ch.key2 ++ ascii "/sendMessage"))
      | _ ↦ url
    ]
    else url

abbrev pub posted : List ℕ → List ℕ → HttpRequest
posted url body = record {
  url = url;
  method = post_method;
  payload = body;
  content_type = json_type;
}

unfoldable pub json_body : Texts → List ℕ
json_body t = printed buf_size (
    ascii "{\"sender\":\""
    ++ (take 100 t.sender
        ++ (ascii "\",\"message\":\""
            ++ (take 1000 t.message
                ++ (ascii "\",\"timestamp\":\"" ++ (take 50 t.timestamp ++ ascii "\"}"))))))

unfoldable pub bark_body : Texts → List ℕ
bark_body t = printed buf_size (
    ascii "{\"title\":\""
    ++ (take 100 t.sender ++ (ascii "\",\"body\":\"" ++ (take 1000 t.message ++ ascii "\"}"))))

-- The address with the texts, as `snprintf` would write it into an array without end.
unfoldable pub full_query : List ℕ → Texts → List ℕ
full_query url t =
    url
    ++ (elim (find_char b'?' url) [ none ↦ ascii "?" | some p ↦ ascii "&" ]
        ++ (ascii "sender="
            ++ (url_encode t.sender 128
                ++ (ascii "&message="
                    ++ (url_encode t.message buf_size
                        ++ (ascii "&timestamp=" ++ url_encode t.timestamp 128))))))

-- The address of a GET channel: the bare one where the one with the texts does not fit.
unfoldable pub get_url : List ℕ → Texts → List ℕ
get_url url t = let query = full_query url t in if ltb (length query) buf_size then query else url

-- "短信来自:"
abbrev pub from_title : List ℕ
from_title =
    0xe7 ∷ 0x9f ∷ 0xad ∷ 0xe4 ∷ 0xbf ∷ 0xa1 ∷ 0xe6 ∷ 0x9d ∷ 0xa5 ∷ 0xe8 ∷ 0x87 ∷ 0xaa ∷ 0x3a ∷ []

-- "**时间:** "
abbrev pub time_label : List ℕ
time_label = 0x2a ∷ 0x2a ∷ 0xe6 ∷ 0x97 ∷ 0xb6 ∷ 0xe9 ∷ 0x97 ∷ 0xb4 ∷ 0x3a ∷ 0x2a ∷ 0x2a ∷ 0x20 ∷ []

-- "\n\n**内容:**\n\n"
abbrev pub content_label : List ℕ
content_label =
    0xa ∷ 0xa ∷ 0x2a ∷ 0x2a ∷ 0xe5 ∷ 0x86 ∷ 0x85 ∷ 0xe5 ∷ 0xae ∷ 0xb9 ∷ 0x3a ∷ 0x2a ∷ 0x2a ∷ 0xa
    ∷ 0xa ∷ []

unfoldable pub server_chan_body : Texts → List ℕ
server_chan_body t =
    let title = url_encode (printed 256 (from_title ++ take 100 t.sender)) 256 in
    let text =
      url_encode
        (printed 1024
          (time_label ++ (take 50 t.timestamp ++ (content_label ++ take 800 t.message))))
        buf_size in
    printed buf_size (ascii "title=" ++ (take 200 title ++ (ascii "&desp=" ++ take 1200 text)))

-- The address of a Gotify channel; the read of the last character needs one.
unfoldable pub gotify_url : PushChannel → Result (List ℕ)
gotify_url ch = if length ch.url == 0 then fault else (do
  last ← read ch.url (length ch.url - 1)
  ok (
      printed buf_size (
        take 1000 ch.url
        ++ ((if last == b'/' then [] else ascii "/")
            ++ (ascii "message?token=" ++ take 100 ch.key1)))))

-- "{\"title\":\"短信来自: "
abbrev pub gotify_title : List ℕ
gotify_title =
    0x7b ∷ 0x22 ∷ 0x74 ∷ 0x69 ∷ 0x74 ∷ 0x6c ∷ 0x65 ∷ 0x22 ∷ 0x3a ∷ 0x22 ∷ 0xe7 ∷ 0x9f ∷ 0xad ∷ 0xe4
    ∷ 0xbf ∷ 0xa1 ∷ 0xe6 ∷ 0x9d ∷ 0xa5 ∷ 0xe8 ∷ 0x87 ∷ 0xaa ∷ 0x3a ∷ 0x20 ∷ []

-- "\\n\\n时间: "
abbrev pub gotify_time : List ℕ
gotify_time = 0x5c ∷ 0x6e ∷ 0x5c ∷ 0x6e ∷ 0xe6 ∷ 0x97 ∷ 0xb6 ∷ 0xe9 ∷ 0x97 ∷ 0xb4 ∷ 0x3a ∷ 0x20 ∷ []

unfoldable pub gotify_body : Texts → List ℕ
gotify_body t = printed buf_size (
    gotify_title
    ++ (take 100 t.sender
        ++ (ascii "\",\"message\":\""
            ++ (take 1000 t.message
                ++ (gotify_time ++ (take 50 t.timestamp ++ ascii "\",\"priority\":5}"))))))

-- "\",\"text\":\"📱通知\\n发送者: "
abbrev pub telegram_sender : List ℕ
telegram_sender =
    0x22 ∷ 0x2c ∷ 0x22 ∷ 0x74 ∷ 0x65 ∷ 0x78 ∷ 0x74 ∷ 0x22 ∷ 0x3a ∷ 0x22 ∷ 0xf0 ∷ 0x9f ∷ 0x93 ∷ 0xb1
    ∷ 0xe9 ∷ 0x80 ∷ 0x9a ∷ 0xe7 ∷ 0x9f ∷ 0xa5 ∷ 0x5c ∷ 0x6e ∷ 0xe5 ∷ 0x8f ∷ 0x91 ∷ 0xe9 ∷ 0x80
    ∷ 0x81 ∷ 0xe8 ∷ 0x80 ∷ 0x85 ∷ 0x3a ∷ 0x20 ∷ []

-- "\\n内容: "
abbrev pub telegram_content : List ℕ
telegram_content = 0x5c ∷ 0x6e ∷ 0xe5 ∷ 0x86 ∷ 0x85 ∷ 0xe5 ∷ 0xae ∷ 0xb9 ∷ 0x3a ∷ 0x20 ∷ []

-- "\\n时间: "
abbrev pub telegram_time : List ℕ
telegram_time = 0x5c ∷ 0x6e ∷ 0xe6 ∷ 0x97 ∷ 0xb6 ∷ 0xe9 ∷ 0x97 ∷ 0xb4 ∷ 0x3a ∷ 0x20 ∷ []

unfoldable pub telegram_body : List ℕ → Texts → List ℕ
telegram_body chat_id t = printed buf_size (
    ascii "{\"chat_id\":\""
    ++ (take 100 chat_id
        ++ (telegram_sender
            ++ (take 100 t.sender
                ++ (telegram_content
                    ++ (take 1000 t.message
                        ++ (telegram_time ++ (take 50 t.timestamp ++ ascii "\"}"))))))))

unfoldable pub custom_template : List ℕ → Texts → NetInfo → Result (List ℕ)
custom_template template t net = do
  s0 ←
      str_replace_inplace (printed buf_size (take 1500 template)) (ascii "{sender}") t.sender
        buf_size
  s1 ← str_replace_inplace s0 (ascii "{message}") t.message buf_size
  s2 ← str_replace_inplace s1 (ascii "{timestamp}") t.timestamp buf_size
  s3 ← str_replace_inplace s2 (ascii "{isp}") (json_escape net.isp 64) buf_size
  s4 ← str_replace_inplace s3 (ascii "{apn}") (json_escape net.apn 64) buf_size
  s5 ← str_replace_inplace s4 (ascii "{device}") (json_escape net.mac 32) buf_size
  s6 ← str_replace_inplace s5 (ascii "{ip}") (json_escape net.ip 32) buf_size
  str_replace_inplace s6 (ascii "{phone}") (json_escape net.phone 32) buf_size

-- The switch over the type; `none` is a return of `false` before the request.
unfoldable pub build_request : PushChannel → Texts → NetInfo → Result (Option HttpRequest)
build_request ch t net =
    let url = target_url ch in
    let esc = escaped t in
    elim ch.kind [
      | post_json ↦ ok (some (posted url (json_body esc)))
      | bark ↦ ok (some (posted url (bark_body esc)))
      | get ↦
          if ltb 2000 (length t.message)
          then ok none
          else ok (
              some (record {
                url = get_url url t;
                method = get_method;
                payload = [];
                content_type = json_type;
              }))
      | server_chan ↦ ok (
          some (record {
            url = url;
            method = post_method;
            payload = server_chan_body t;
            content_type = ascii "application/x-www-form-urlencoded";
          }))
      | gotify ↦ gotify_url ch >>= λ address. ok (some (posted address (gotify_body esc)))
      | telegram ↦ ok (some (posted url (telegram_body ch.key1 esc)))
      | custom ↦ custom_template ch.custom_body esc net >>= λ body. ok (some (posted url body))
      | no_push ↦ ok none
    ]

-- `send_to_single_channel`; `http` is the outcome of `http_util_request`.
unfoldable pub send_to_single_channel :
    (HttpRequest → Bool) → PushChannel → Texts → NetInfo → Result Bool
send_to_single_channel http ch t net =
    if ch.enabled
    then (build_request ch t net >>= λ made. ok (elim made [ none ↦ false | some r ↦ http r ]))
    else ok false
