-- ===== src/Sms/Task/Overread.antt =====
-- The sweep does not compare the number of parts a message expects with the parts a slot has.
use esp32c3_sms_gateway.Prelude.{
  ℕ, zero, suc, ◌+◌, ◌≤◌, ◌<◌, ◌≡◌, ◌⊎◌, inl, inr, refl, arith, true, Option, none, some, List, [],
  ◌∷◌, ◌++◌, get_elem?, length, Option-cases, Bool-cases, if◌then◌else◌,
}
use esp32c3_sms_gateway.Prelude.Result.{Result, ok, fault, ◌>>=◌}
use esp32c3_sms_gateway.Sms.Concat.{Part, Slot, append_text}
use esp32c3_sms_gateway.Sms.Task.{missing_part, join_expired, is_expired, expire, sweep}

get_elem?_below {ℓ} :
    {A : Type ℓ} (xs : List A) (i : ℕ) {x : A} → get_elem? xs i ≡ some x → i < length xs
get_elem?_below [] i e = cc
get_elem?_below (x ∷ xs) zero e = omega arith
get_elem?_below (x ∷ xs) (suc i) e = omega (arith, get_elem?_below xs i e)

join_expired-overread :
    (parts : List Part) (left j : ℕ) (full indexes : List ℕ)
    → j ≤ length parts
    → length parts < j + left
    → join_expired parts left j full indexes ≡ fault
unfolding join_expired
join_expired-overread parts zero j full indexes le lt = absurd (omega arith)
join_expired-overread parts (suc left) j full indexes le lt =
    elim (Option-cases (get_elem? parts j)) [
      | inl e ↦ ground (arith, e)
      | inr (p, e) ↦
          let below = get_elem?_below parts j e in
          ground (
            arith,
            e,
            join_expired-overread parts left (j + 1) (append_text full p.text) indexes,
            join_expired-overread parts left (j + 1) (append_text full p.text)
                (indexes ++ (p.sms_index ∷ [])),
            join_expired-overread parts left (j + 1) (append_text full missing_part) indexes,
          )
    ]

-- No step of the sweep fails with a code: it goes on or faults.
abbrev GoesOn : {A : Type 0} → Result A → Type 0
GoesOn {A = A} r = ((a : A) × (r ≡ ok a)) ⊎ (r ≡ fault)

join_expired-GoesOn :
    (parts : List Part) (left j : ℕ) (full indexes : List ℕ)
    → GoesOn (join_expired parts left j full indexes)
unfolding join_expired
join_expired-GoesOn parts zero j full indexes = inl (_, refl)
join_expired-GoesOn parts (suc left) j full indexes =
    go (λ p. join_expired-GoesOn parts left (j + 1) _ _) (get_elem? parts j)
  where
    go :
        ((p : Part)
          → GoesOn (
              join_expired parts left
                (j + 1)
                (append_text full (if p.valid then p.text else missing_part))
                (if p.valid then indexes ++ (p.sms_index ∷ []) else indexes)))
        → (o : Option Part)
        → GoesOn (
            (elim o [ none ↦ fault | some p ↦ ok p ]) >>= λ p.
            join_expired parts left
              (j + 1)
              (append_text full (if p.valid then p.text else missing_part))
              (if p.valid then indexes ++ (p.sms_index ∷ []) else indexes))
    go on none = inr refl
    go on (some p) = on p

expire-GoesOn : (now : ℕ) (s : Slot) → GoesOn (expire now s)
unfolding expire
expire-GoesOn now s = elim (Bool-cases (is_expired now s)) [
  | inr not_due ↦ rw (not_due, expire) (inl (_, refl))
  | inl due ↦ elim (join_expired-GoesOn s.parts s.total_parts 0 [] []) [
    | inl (r, e) ↦ rw (due, e, expire) (inl (_, refl))
    | inr e ↦ rw (due, e, expire) (inr refl)
  ]
]

expire-overread :
    (now : ℕ) (s : Slot)
    → is_expired now s ≡ true
    → length s.parts < s.total_parts
    → expire now s ≡ fault
unfolding expire
expire-overread now s due more =
    ground
      (arith, due, join_expired-overread s.parts s.total_parts 0 [] [] (omega arith) (omega arith))

-- A due message that expects more parts than its slot has makes the sweep read outside the array
-- of parts, whatever the other slots hold.
pub sweep-overread :
    (now : ℕ) (front : List Slot) (s : Slot) (back : List Slot)
    → is_expired now s ≡ true
    → length s.parts < s.total_parts
    → sweep now (front ++ s ∷ back) ≡ fault
unfolding sweep
sweep-overread now [] s back due more = rw (expire-overread now s due more) refl
sweep-overread now (x ∷ front) s back due more = elim (expire-GoesOn now x) [
  | inl (r, e) ↦ rw (e, sweep-overread now front s back due more) refl
  | inr e ↦ rw e refl
]
