-- ===== src/Push/Network.antt =====
-- What push_service.c keeps of the modem's answers about the network.
use esp32c3_sms_gateway.Prelude.{
  ℕ, ◌+◌, ◌-◌, ◌%◌, ◌^◌, ◌≤◌, ◌<◌, ◌≡◌, ◌⊎◌, inl, inr, refl, arith, Bool, true, false, Bool-cases,
  ◌||◌, Option, none, some, List, [], ◌∷◌, length, length-take, take, take_all, drop, ltb, ◌==◌,
  if◌then◌else◌,
}
use esp32c3_sms_gateway.Prelude.Text.{ascii, bytes_eq, find_str, find_char}
use esp32c3_sms_gateway.Push.Request.{printed}

-- `net_cache_item_t`
pub record NetCacheItem : Type 0 where
  pub value : List ℕ
  pub last_update : ℕ

-- The age is a difference of two 32-bit counters.
unfoldable pub is_cache_expired : NetCacheItem → ℕ → Bool
is_cache_expired item now_ms =
    length item.value == 0
    || (bytes_eq item.value (ascii "Unknown")
        || ltb 10800000 ((now_ms + 2 ^ 32 - item.last_update) % 2 ^ 32))

abbrev field_start : List ℕ
field_start = b',' ∷ b'"' ∷ []

infixl 5 ◌>>=◌
abbrev ◌>>=◌ {ℓ κ} : {A : Type ℓ} {B : Type κ} → Option A → (A → Option B) → Option B
none >>= f = none
some a >>= f = f a

-- The text up to the next quote, of which 63 bytes are kept.
abbrev quoted_value : List ℕ → Option (List ℕ)
quoted_value p = do
  e ← find_char b'"' p
  let len = length p - length e
  some (take (if ltb len 64 then len else 63) p)

-- The first quoted field behind a comma of the answers to AT+COPS? and AT+CNUM.
unfoldable pub first_field : List ℕ → Option (List ℕ)
first_field resp_buf = do p ← find_str field_start resp_buf; quoted_value (drop 2 p)

-- The second one of the answer to AT+CGDCONT?.
unfoldable pub second_field : List ℕ → Option (List ℕ)
second_field resp_buf = do
  p ← find_str field_start resp_buf
  q ← find_str field_start (drop 2 p)
  quoted_value (drop 2 q)

-- What a missing answer (`none`) and one without the field leave as it is.
abbrev pub kept_answer :
    (List ℕ → Option (List ℕ)) → Option (List ℕ) → ℕ → NetCacheItem → NetCacheItem
kept_answer field none now item = item
kept_answer field (some resp_buf) now item = elim (field resp_buf) [
  | none ↦ item
  | some v ↦ record { value = v; last_update = now }
]

-- One of the three blocks of `get_network_info_cached`.
unfoldable pub refresh :
    (List ℕ → Option (List ℕ)) → Option (List ℕ) → ℕ → NetCacheItem → NetCacheItem
refresh field answer now item =
    let asked = kept_answer field answer now item in
    if is_cache_expired item now
    then (if length asked.value == 0
        then record { value = ascii "Unknown"; last_update = asked.last_update }
        else asked)
    else item

pub record NetCache : Type 0 where
  pub isp : NetCacheItem
  pub apn : NetCacheItem
  pub phone : NetCacheItem

-- The answers of the modem to AT+COPS?, AT+CGDCONT? and AT+CNUM.
pub record Answers : Type 0 where
  pub cops : Option (List ℕ)
  pub cgdcont : Option (List ℕ)
  pub cnum : Option (List ℕ)

pub record Shown : Type 0 where
  pub apn : List ℕ
  pub isp : List ℕ
  pub phone : List ℕ

unfoldable pub get_network_info_cached : Answers → ℕ → NetCache → NetCache × Shown
get_network_info_cached answers now cache =
    let isp = refresh first_field answers.cops now cache.isp in
    let apn = refresh second_field answers.cgdcont now cache.apn in
    let phone = refresh first_field answers.cnum now cache.phone in
    (
      record { isp = isp; apn = apn; phone = phone },
      record {
        apn = printed 64 apn.value;
        isp = printed 64 isp.value;
        phone = printed 32 phone.value;
      },
    )

-- A value that has been read or replaced: not empty, and inside its array.
abbrev pub IsShown : List ℕ → Type 0
IsShown s = (0 < length s) × (length s ≤ 63)

abbrev pub FitsItem : NetCacheItem → Type 0
FitsItem item = length item.value ≤ 63

abbrev IsShort : Option (List ℕ) → Type 0
IsShort none = Unit
IsShort (some v) = length v ≤ 63

IsShort-bind :
    (m : Option (List ℕ)) (f : List ℕ → Option (List ℕ))
    → ((a : List ℕ) → IsShort (f a))
    → IsShort (m >>= f)
IsShort-bind none f h = tt
IsShort-bind (some a) f h = h a

length-take_field : (p : List ℕ) (len : ℕ) → length (take (if ltb len 64 then len else 63) p) ≤ 63
length-take_field p len = go (Bool-cases (ltb len 64))
  where
    go :
        (ltb len 64 ≡ true) ⊎ (ltb len 64 ≡ false)
        → length (take (if ltb len 64 then len else 63) p) ≤ 63
    go (inl small) = rw small (omega (arith, length-take len p, leq_of len small))
      where
        leq_of : (n : ℕ) → ltb n 64 ≡ true → n < 64
        leq_of n e = ground (arith, e)
    go (inr large) = rw large (omega (arith, length-take 63 p))

quoted_value-IsShort : (p : List ℕ) → IsShort (quoted_value p)
quoted_value-IsShort p =
    IsShort-bind (find_char b'"' p) _ (λ e. length-take_field p (length p - length e))

first_field-IsShort : (s : List ℕ) → IsShort (first_field s)
unfolding first_field
first_field-IsShort s =
    IsShort-bind (find_str field_start s) _ (λ p. quoted_value-IsShort (drop 2 p))

second_field-IsShort : (s : List ℕ) → IsShort (second_field s)
unfolding second_field
second_field-IsShort s =
    IsShort-bind (find_str field_start s) _
      (λ p. IsShort-bind (find_str field_start (drop 2 p)) _ (λ q. quoted_value-IsShort (drop 2 q)))

kept_answer-FitsItem :
    (field : List ℕ → Option (List ℕ)) (answer : Option (List ℕ)) (now : ℕ) (item : NetCacheItem)
    → ((s : List ℕ) → IsShort (field s))
    → FitsItem item
    → FitsItem (kept_answer field answer now item)
kept_answer-FitsItem field none now item short fits = fits
kept_answer-FitsItem field (some s) now item short fits = go (field s) (short s)
  where
    go :
        (v : Option (List ℕ))
        → IsShort v
        → FitsItem (elim v [ none ↦ item | some v ↦ record { value = v; last_update = now } ])
    go none h = fits
    go (some v) h = h

refresh-IsShown :
    (field : List ℕ → Option (List ℕ)) (answer : Option (List ℕ)) (now : ℕ) (item : NetCacheItem)
    → ((s : List ℕ) → IsShort (field s))
    → FitsItem item
    → IsShown (refresh field answer now item).value
unfolding refresh is_cache_expired
refresh-IsShown field answer now item short fits =
    let asked = kept_answer-FitsItem field answer now item short fits in ground (arith, asked, fits)

-- Whatever the modem answers and whenever it does, each value of the cache is neither empty nor
-- longer than its array allows after a call, where the arrays held texts before it; and what the
-- call passes on are these values, of the phone number at most 31 bytes.
pub get_network_info_cached-IsShown :
    (answers : Answers) (now : ℕ) (cache : NetCache)
    → FitsItem cache.isp
    → FitsItem cache.apn
    → FitsItem cache.phone
    → let (later, shown) = get_network_info_cached answers now cache in
      IsShown later.isp.value
      × IsShown later.apn.value
      × IsShown later.phone.value
      × (shown.isp ≡ later.isp.value)
      × (shown.apn ≡ later.apn.value)
      × (shown.phone ≡ take 31 later.phone.value)
unfolding get_network_info_cached
get_network_info_cached-IsShown answers now cache isp_fits apn_fits phone_fits =
    let isp = refresh-IsShown first_field answers.cops now cache.isp first_field-IsShort isp_fits in
    let apn =
      refresh-IsShown second_field answers.cgdcont now cache.apn second_field-IsShort apn_fits in
    let phone =
      refresh-IsShown first_field answers.cnum now cache.phone first_field-IsShort phone_fits in
    (isp, apn, phone, take_all 63 _ isp.1, take_all 63 _ apn.1, refl)
