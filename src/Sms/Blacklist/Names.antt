-- ===== src/Sms/Blacklist/Names.antt =====
-- The black list as names with delimiters between them.
use esp32c3_sms_gateway.Prelude.{
  take_all, ℕ, ◌≤◌, ◌≡◌, ◌≢◌, refl, sym, ◌↔◌, ◌⊎◌, inl, inr, ap, ◌∙◌, arith, true, false, not, ◌&&◌,
  List, [], ◌∷◌, ◌++◌, length, All, Bool-cases, if◌then◌else◌,
}
use esp32c3_sms_gateway.Prelude.Text.{c_str, copy_str}
use esp32c3_sms_gateway.Sms.Phone.{phone_equals, is_empty}
use esp32c3_sms_gateway.Sms.Blacklist.{
  is_admin_phone, is_delimiter, tokens_from, matches_any, is_blacklisted,
}
use mathlib.Core.List.{append-nil, append_assoc}

-- A name, and the delimiters behind it.
pub record Entry : Type 0 where
  pub name : List ℕ
  pub delimiter : ℕ
  pub more : List ℕ

abbrev pub IsDelimiter : ℕ → Type 0
IsDelimiter c = is_delimiter c ≡ true

abbrev pub IsPlain : ℕ → Type 0
IsPlain c = is_delimiter c ≡ false

pub record IsEntry (e : Entry) : Type 0 where
  pub named : is_empty e.name ≡ false
  pub plain : All IsPlain e.name
  pub delimited : All IsDelimiter (e.delimiter ∷ e.more)

-- The setting: the entries, and a last name that may be missing.
unfoldable pub joined : List Entry → List ℕ → List ℕ
joined [] last = last
joined (e ∷ es) last = e.name ++ (e.delimiter ∷ e.more ++ joined es last)

unfoldable pub names : List Entry → List ℕ → List (List ℕ)
names [] last = if is_empty last then [] else last ∷ []
names (e ∷ es) last = e.name ∷ names es last

tokens_from_delimiters :
    (ds s : List ℕ) → All IsDelimiter ds → tokens_from [] (ds ++ s) ≡ tokens_from [] s
unfolding tokens_from
tokens_from_delimiters [] s h = refl
tokens_from_delimiters (d ∷ ds) s h = rw (h.0) (tokens_from_delimiters ds s h.1)

tokens_from_name :
    (token name s : List ℕ)
    → All IsPlain name
    → tokens_from token (name ++ s) ≡ tokens_from (token ++ name) s
unfolding tokens_from
tokens_from_name token [] s h = rw (append-nil token) refl
tokens_from_name token (c ∷ name) s h =
    rw (h.0, ← append_assoc token (c ∷ []) name) (tokens_from_name (token ++ (c ∷ [])) name s h.1)

-- The tokens are the names, whatever delimiters stand between them.
pub tokens_from-joined :
    (es : List Entry) (last : List ℕ)
    → All IsEntry es
    → All IsPlain last
    → tokens_from [] (joined es last) ≡ names es last
unfolding joined names tokens_from
tokens_from-joined [] last h k =
    sym (ap (tokens_from []) (append-nil last)) ∙ tokens_from_name [] last [] k
tokens_from-joined (e ∷ es) last (h, hs) k =
    tokens_from_name [] e.name (e.delimiter ∷ e.more ++ joined es last) h.plain
    ∙ rw (h.delimited.0, h.named)
        (ap (λ t. e.name ∷ t)
          (tokens_from_delimiters e.more (joined es last) h.delimited.1
            ∙ tokens_from-joined es last hs k))

-- The sender is the number of one of the names.
abbrev pub IsListed : List ℕ → List (List ℕ) → Type 0
IsListed sender [] = ⊥
IsListed sender (n ∷ ns) = (phone_equals sender n ≡ true) ⊎ IsListed sender ns

matches_any-IsListed :
    (sender : List ℕ) (ns : List (List ℕ)) → matches_any sender ns ≡ true → IsListed sender ns
unfolding matches_any
matches_any-IsListed sender [] e = cc
matches_any-IsListed sender (n ∷ ns) e = elim (Bool-cases (phone_equals sender n)) [
  | inl same ↦ inl same
  | inr other ↦ inr (matches_any-IsListed sender ns (ground arith))
]

IsListed-matches_any :
    (sender : List ℕ) (ns : List (List ℕ)) → IsListed sender ns → matches_any sender ns ≡ true
unfolding matches_any
IsListed-matches_any sender [] h = absurd h
IsListed-matches_any sender (n ∷ ns) (inl e) = ground arith
IsListed-matches_any sender (n ∷ ns) (inr h) = ground (arith, IsListed-matches_any sender ns h)

c_str_plain : (s : List ℕ) → All (λ c. c ≢ 0) s → c_str s ≡ s
unfolding c_str
c_str_plain [] h = refl
c_str_plain (c ∷ s) h = ground (arith, h.0, c_str_plain s h.1)

tokens_of_setting :
    (es : List Entry) (last : List ℕ)
    → All IsEntry es
    → All IsPlain last
    → All (λ c. c ≢ 0) (joined es last)
    → length (joined es last) ≤ 255
    → tokens_from [] (copy_str 256 (joined es last)) ≡ names es last
unfolding copy_str
tokens_of_setting es last h k text fits =
    rw (c_str_plain (joined es last) text, take_all 255 (joined es last) fits)
      (tokens_from-joined es last h k)

is_empty-append : (x y : List ℕ) → is_empty (x ++ y) ≡ true → is_empty x ≡ true
is_empty-append [] y e = refl
is_empty-append (c ∷ x) y e = e

empty_setting :
    (es : List Entry) (last : List ℕ)
    → is_empty (joined es last) ≡ true
    → All IsEntry es
    → names es last ≡ []
unfolding joined names
empty_setting [] last e h = rw e refl
empty_setting (entry ∷ es) last e h =
    let named = h.0.named in let void = is_empty-append entry.name _ e in cc

is_blacklisted-matches_any :
    (admin_phone sender : List ℕ) (es : List Entry) (last : List ℕ)
    → All IsEntry es
    → All IsPlain last
    → All (λ c. c ≢ 0) (joined es last)
    → length (joined es last) ≤ 255
    → is_blacklisted admin_phone (joined es last) sender
      ≡ not (is_empty sender)
        && (not (is_admin_phone admin_phone sender) && matches_any sender (names es last))
unfolding is_blacklisted matches_any
is_blacklisted-matches_any admin_phone sender es last h k text fits =
    elim (Bool-cases (is_empty (joined es last))) [
      | inl void ↦
          let none_named = empty_setting es last void h in
          rw (none_named, void, is_blacklisted) (ground arith)
      | inr some_text ↦
          rw (some_text, tokens_of_setting es last h k text fits, is_blacklisted) (ground arith)
    ]

-- A sender is refused exactly if there is one, it is not the administrator's number, and it is the
-- number of one of the names of the setting, where the setting is names between delimiters and
-- fits its buffer of 256 bytes.
pub is_blacklisted_iff :
    (admin_phone sender : List ℕ) (es : List Entry) (last : List ℕ)
    → All IsEntry es
    → All IsPlain last
    → All (λ c. c ≢ 0) (joined es last)
    → length (joined es last) ≤ 255
    → (is_blacklisted admin_phone (joined es last) sender ≡ true) ↔ (
        (is_empty sender ≡ false)
        × ((is_admin_phone admin_phone sender ≡ false) × IsListed sender (names es last)))
is_blacklisted_iff admin_phone sender es last h k text fits =
    rw (is_blacklisted-matches_any admin_phone sender es last h k text fits) (
      λ e. (
        ground arith,
        (ground arith, matches_any-IsListed sender (names es last) (ground arith)),
      ),
      λ (named, (not_admin, listed)).
          ground (arith, IsListed-matches_any sender (names es last) listed),
    )
