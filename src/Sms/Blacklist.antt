-- ===== src/Sms/Blacklist.antt =====
-- `sms_processor_is_admin_phone` and `sms_processor_is_blacklisted` of sms_processor.c.
pub mod Names
use esp32c3_sms_gateway.Prelude.{
  ℕ, Bool, false, not, ◌&&◌, ◌||◌, List, [], ◌∷◌, ◌++◌, ◌==◌, if◌then◌else◌,
}
use esp32c3_sms_gateway.Prelude.Text.{copy_str}
use esp32c3_sms_gateway.Sms.Phone.{phone_equals, is_empty}

unfoldable pub is_admin_phone : List ℕ → List ℕ → Bool
is_admin_phone admin_phone sender = not (is_empty admin_phone) && phone_equals sender admin_phone

-- The delimiters ",; \t\r\n".
abbrev pub is_delimiter : ℕ → Bool
is_delimiter c = c == b',' || c == b';' || c == b' ' || c == 9 || c == 13 || c == 10

-- The tokens that repeated calls of `strtok_r` return; `token` is the one being read.
unfoldable pub tokens_from : List ℕ → List ℕ → List (List ℕ)
tokens_from token [] = if is_empty token then [] else token ∷ []
tokens_from token (c ∷ s) =
    let ended = tokens_from [] s in
    let longer = tokens_from (token ++ (c ∷ [])) s in
    if is_delimiter c then (if is_empty token then ended else token ∷ ended) else longer

-- The loop over the tokens.
unfoldable pub matches_any : List ℕ → List (List ℕ) → Bool
matches_any sender [] = false
matches_any sender (token ∷ rest) = phone_equals sender token || matches_any sender rest

unfoldable pub is_blacklisted : List ℕ → List ℕ → List ℕ → Bool
is_blacklisted admin_phone black_list sender =
    if is_empty sender
    then false
    else if is_admin_phone admin_phone sender
    then false
    else if is_empty black_list
    then false
    else matches_any sender (tokens_from [] (copy_str 256 black_list))
