-- ===== src/Sms/Task/Sweep.antt =====
-- The sweep over long messages that wait too long: what it pushes, and where it reads too far.
use esp32c3_sms_gateway.Prelude.{
  take-append-take, take-take, ℕ, zero, suc, ◌+◌, ◌≤◌, ◌≡◌, inl, inr, refl, ap, ◌∙◌, arith, true,
  false, some, List, [], ◌∷◌, ◌++◌, map, take, drop, get_elem?, get_elem?-lt, drop-get_elem?,
  length, All, Bool-cases, if◌then◌else◌,
}
use esp32c3_sms_gateway.Prelude.Result.{ok}
use esp32c3_sms_gateway.Prelude.Text.{c_str}
use esp32c3_sms_gateway.Sms.Concat.{Part, Slot, Push, append_text}
use esp32c3_sms_gateway.Sms.Task.{
  Call, send_with_ack, missing_part, join_expired, is_expired, expire, sweep,
}
use mathlib.Core.List.{append-nil, append_assoc}
use native.Mathlib.Numerals.{add-one}

-- The text of the parts: the ones received, and a mark for each missing one.
unfoldable pub shown_text : List Part → List ℕ
shown_text [] = []
shown_text (p ∷ ps) = (if p.valid then c_str p.text else missing_part) ++ shown_text ps

-- The storage indices of the parts received.
unfoldable pub valid_indexes : List Part → List ℕ
valid_indexes [] = []
valid_indexes (p ∷ ps) = if p.valid then p.sms_index ∷ valid_indexes ps else valid_indexes ps

-- The report on a message, of which `total_parts` parts were expected.
abbrev pub report : Slot → Push
report s = record {
  sender = s.sender;
  text = take 4799 (shown_text (take s.total_parts s.parts));
  timestamp = s.timestamp;
  indexes = valid_indexes (take s.total_parts s.parts);
}

unfoldable pub reports : ℕ → List Slot → List Call
reports now [] = []
reports now (s ∷ buf) =
    if is_expired now s then send_with_ack (report s) ∷ reports now buf else reports now buf

abbrev pub retire : ℕ → Slot → Slot
retire now s = if is_expired now s then record s { in_use = false } else s

append_text-shown :
    (full text rest : List ℕ)
    → take 4799 (append_text full text ++ rest) ≡ take 4799 (full ++ (c_str text ++ rest))
unfolding append_text
append_text-shown full text rest =
    take-append-take 4799 (full ++ c_str text) rest
    ∙ ap (take 4799) (append_assoc full (c_str text) rest)

short_append : (full text : List ℕ) → take 4799 (append_text full text) ≡ append_text full text
unfolding append_text
short_append full text = take-take 4799 (full ++ c_str text)

c_str-missing_part : c_str missing_part ≡ missing_part
unfolding c_str
c_str-missing_part = refl

join_expired-shown :
    (parts : List Part) (left j : ℕ) (full indexes : List ℕ)
    → j + left ≤ length parts
    → take 4799 full ≡ full
    → join_expired parts left j full indexes
      ≡ ok (
        take 4799 (full ++ shown_text (take left (drop j parts))),
        indexes ++ valid_indexes (take left (drop j parts)),
      )
unfolding join_expired shown_text valid_indexes
join_expired-shown parts zero j full indexes le short =
    rw (append-nil full, append-nil indexes, short) refl
join_expired-shown parts (suc left) j full indexes le short =
    let (p, e) = get_elem?-lt parts j (omega arith) in
    one_more p e (
      join_expired-shown parts left (j + 1)
        (append_text full (if p.valid then p.text else missing_part))
        (if p.valid then indexes ++ (p.sms_index ∷ []) else indexes) (omega arith)
        (short_append full _))
  where
    one_more :
        (p : Part)
        → get_elem? parts j ≡ some p
        → join_expired parts left
            (j + 1)
            (append_text full (if p.valid then p.text else missing_part))
            (if p.valid then indexes ++ (p.sms_index ∷ []) else indexes)
          ≡ ok (
            take 4799 (
                append_text full (if p.valid then p.text else missing_part)
                ++ shown_text (take left (drop (j + 1) parts))),
            (if p.valid then indexes ++ (p.sms_index ∷ []) else indexes)
                ++ valid_indexes (take left (drop (j + 1) parts)),
          )
        → join_expired parts (suc left) j full indexes
          ≡ ok (
            take 4799 (full ++ shown_text (take (suc left) (drop j parts))),
            indexes ++ valid_indexes (take (suc left) (drop j parts)),
          )
    one_more p e later =
        rw (drop-get_elem? j parts e, ← add-one)
          (elim (Bool-cases p.valid) [
            | inl v ↦ ground (
              arith,
              e,
              v,
              later,
              append_text-shown full p.text (shown_text (take left (drop (j + 1) parts))),
              append_assoc indexes (p.sms_index ∷ [])
                  (valid_indexes (take left (drop (j + 1) parts))),
            )
            | inr v ↦ ground (
              arith,
              e,
              v,
              later,
              append_text-shown full missing_part (shown_text (take left (drop (j + 1) parts))),
              c_str-missing_part,
            )
          ])

-- Where every message that is due expects at most as many parts as its slot has, the sweep frees
-- exactly the slots that are due and pushes one report for each, in the order of the slots: the
-- texts received with a mark for each missing part, cut to 4799 bytes, and the storage indices of
-- the parts received.
pub sweep-reports :
    (now : ℕ) (buf : List Slot)
    → All (λ s. is_expired now s ≡ true → s.total_parts ≤ length s.parts) buf
    → sweep now buf ≡ ok (map (retire now) buf, reports now buf)
unfolding sweep expire reports
sweep-reports now [] h = refl
sweep-reports now (s ∷ buf) (fits, h) = elim (Bool-cases (is_expired now s)) [
  | inl due ↦
      let joined =
        join_expired-shown s.parts s.total_parts 0 [] [] (omega (arith, fits due)) refl in
      ground (arith, due, joined, sweep-reports now buf h)
  | inr not_due ↦ ground (arith, not_due, sweep-reports now buf h)
]

retire-IsFresh : (now : ℕ) (s : Slot) → is_expired now (retire now s) ≡ false
unfolding is_expired
retire-IsFresh now s = ground arith

reports-retire : (now : ℕ) (buf : List Slot) → reports now (map (retire now) buf) ≡ []
unfolding reports
reports-retire now [] = refl
reports-retire now (s ∷ buf) = rw (retire-IsFresh now s) (reports-retire now buf)
