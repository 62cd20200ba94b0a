-- ===== src/Sms/Concat/Invariant.antt =====
-- The reassembly buffer stays well formed, and no fragment makes it read outside its arrays.
use esp32c3_sms_gateway.Prelude.{
  ℕ, zero, suc, ◌+◌, ◌&&◌, ◌-◌, ◌≤◌, ◌<◌, ◌≡◌, ◌⊎◌, inl, inr, refl, arith, Bool, true, false,
  Option, none, some, List, [], ◌∷◌, map, length, length-set, get_elem?, set, All, Option-cases,
  ltb, leb, tests, if◌then◌else◌,
}
use esp32c3_sms_gateway.Prelude.Result.{Returns, Returns-bind, Returns-read, Returns-if}
use esp32c3_sms_gateway.Sms.Concat.{
  Part, Slot, Fragment, Push, part_of, max_delay, max_parts, init_concat_buffer, find_slot,
  pick_slot, invalidate, claim_slot, update_at, find_or_create_concat_slot, keep_part, join_parts,
  place_fragment, receive_fragment,
}

unfoldable pub count_valid : List Part → ℕ
count_valid [] = 0
count_valid (p ∷ ps) = (if p.valid then 1 else 0) + count_valid ps

any_parts : (ps : List Part) → All (λ p. Unit {0}) ps
any_parts [] = tt
any_parts (p ∷ ps) = (tt, any_parts ps)

pub record IsSlot (s : Slot) : Type 0 where
  pub ten_parts : length s.parts ≡ 10
  pub counted : s.received_parts ≡ count_valid s.parts

pub record IsBuffer (buf : List Slot) : Type 0 where
  pub five_slots : length buf ≡ 5
  pub slots : All IsSlot buf

pub count_valid-le : (ps : List Part) → count_valid ps ≤ length ps
unfolding count_valid
count_valid-le [] = omega arith
count_valid-le (p ∷ ps) = ground (arith, count_valid-le ps)

count_valid-invalidate : (ps : List Part) → count_valid (map invalidate ps) ≡ 0
unfolding count_valid
count_valid-invalidate [] = refl
count_valid-invalidate (p ∷ ps) = ground (arith, count_valid-invalidate ps)

pub count_valid-set :
    (ps : List Part) (i : ℕ) (old new : Part)
    → get_elem? ps i ≡ some old
    → old.valid ≡ false
    → new.valid ≡ true
    → count_valid (set ps i new) ≡ count_valid ps + 1
unfolding count_valid
count_valid-set [] i old new e o n = cc
count_valid-set (p ∷ ps) zero old new e o n = ground arith
count_valid-set (p ∷ ps) (suc i) old new e o n = ground (arith, count_valid-set ps i old new e o n)

pub length-invalidate : (ps : List Part) → length (map invalidate ps) ≡ length ps
length-invalidate [] = refl
length-invalidate (p ∷ ps) = omega (arith, length-invalidate ps)

claim_slot-IsSlot :
    (ref : ℕ) (sdr : List ℕ) (tot now : ℕ) (s : Slot)
    → IsSlot s
    → IsSlot (claim_slot ref sdr tot now s)
unfolding claim_slot
claim_slot-IsSlot ref sdr tot now s h =
    omega (arith, length-invalidate s.parts, count_valid-invalidate s.parts)

pub length-update_at {ℓ} :
    {A : Type ℓ} (i : ℕ) (f : A → A) (xs : List A) → length (update_at i f xs) ≡ length xs
unfolding update_at
length-update_at i f [] = refl
length-update_at zero f (x ∷ xs) = refl
length-update_at (suc i) f (x ∷ xs) = omega (arith, length-update_at i f xs)

All-update_at {ℓ} :
    {A : Type ℓ} (P : A → Type 0) (i : ℕ) (f : A → A) (xs : List A)
    → All P xs
    → ((a : A) → P a → P (f a))
    → All P (update_at i f xs)
unfolding update_at
All-update_at P i f [] h k = h
All-update_at P zero f (x ∷ xs) h k = (k x h.0, h.1)
All-update_at P (suc i) f (x ∷ xs) h k = (h.0, All-update_at P i f xs h.1 k)

pub All-set {ℓ} :
    {A : Type ℓ} (P : A → Type 0) (i : ℕ) (a : A) (xs : List A)
    → All P xs
    → P a
    → All P (set xs i a)
All-set P i a [] h p = h
All-set P zero a (x ∷ xs) h p = (p, h.1)
All-set P (suc i) a (x ∷ xs) h p = (h.0, All-set P i a xs h.1 p)

pub find_slot-lt :
    (ref : ℕ) (sdr : List ℕ) (buf : List Slot) (i : ℕ)
    → find_slot ref sdr buf ≡ some i
    → i < length buf
unfolding find_slot
find_slot-lt ref sdr [] i e = cc
find_slot-lt ref sdr (s ∷ buf) zero e = omega arith
find_slot-lt ref sdr (s ∷ buf) (suc i) e = ground (arith, find_slot-lt ref sdr buf i)

-- The slot taken is the one offered so far, or one from `i` on.
pick_slot_range :
    (buf : List Slot) (i oldest_slot oldest_time : ℕ)
    → (pick_slot buf i oldest_slot oldest_time ≡ oldest_slot)
      ⊎ ((i ≤ pick_slot buf i oldest_slot oldest_time)
          × (pick_slot buf i oldest_slot oldest_time < i + length buf))
unfolding pick_slot
pick_slot_range [] i oldest_slot oldest_time = inl refl
pick_slot_range (s ∷ buf) i oldest_slot oldest_time = ground (
  arith,
  pick_slot_range buf (i + 1) i s.first_part_time,
  pick_slot_range buf (i + 1) oldest_slot oldest_time,
)

pub pick_slot-lt : (buf : List Slot) → 0 < length buf → pick_slot buf 0 0 max_delay < length buf
pick_slot-lt buf h = ground (arith, pick_slot_range buf 0 0 max_delay)

module _ (ref : ℕ) (sdr : List ℕ) (tot now : ℕ) (buf : List Slot) where
  -- A known message keeps its slot; a new one claims a slot.
  pub find_or_create_known :
      (i : ℕ)
      → find_slot ref sdr buf ≡ some i
      → find_or_create_concat_slot ref sdr tot now buf ≡ (buf, i)
  unfolding find_or_create_concat_slot
  find_or_create_known i e = rw (e, find_or_create_concat_slot)

  pub find_or_create_new :
      find_slot ref sdr buf ≡ none
      → find_or_create_concat_slot ref sdr tot now buf ≡ (
        update_at (pick_slot buf 0 0 max_delay) (claim_slot ref sdr tot now) buf,
        pick_slot buf 0 0 max_delay,
      )
  unfolding find_or_create_concat_slot
  find_or_create_new e = rw (e, find_or_create_concat_slot)

  abbrev FoundIn : List Slot × ℕ → Type 0
  FoundIn r = IsBuffer r.0 × (r.1 < 5)

  pub find_or_create-IsBuffer :
      IsBuffer buf → FoundIn (find_or_create_concat_slot ref sdr tot now buf)
  find_or_create-IsBuffer h = elim (Option-cases (find_slot ref sdr buf)) [
    | inr (i, e) ↦
        rw (find_or_create_known i e) (h, omega (arith, find_slot-lt ref sdr buf i e, h.five_slots))
    | inl e ↦ rw (find_or_create_new e) (
      record {
        five_slots = omega (
          arith,
          h.five_slots,
          length-update_at (pick_slot buf 0 0 max_delay) (claim_slot ref sdr tot now) buf,
        );
        slots =
            All-update_at IsSlot (pick_slot buf 0 0 max_delay) (claim_slot ref sdr tot now) buf
              h.slots (claim_slot-IsSlot ref sdr tot now);
      },
      omega (arith, h.five_slots, pick_slot-lt buf),
    )
  ]

pub keep_part-Returns : (f : Fragment) (s : Slot) → IsSlot s → Returns IsSlot (keep_part f s)
unfolding keep_part
keep_part-Returns f s h =
    Returns-if IsSlot (ltb 0 f.part_number && ltb (f.part_number - 1) max_parts) _ _
      (λ below.
        Returns-read (λ p. Unit {0}) IsSlot s.parts (f.part_number - 1) _ (ground arith)
          (any_parts s.parts)
          λ old e _.
            Returns-if IsSlot old.valid _ _ (λ _. h)
              λ fresh. record {
                ten_parts =
                    omega (arith, h.ten_parts, length-set s.parts (f.part_number - 1) (part_of f));
                counted = omega (
                  arith,
                  h.counted,
                  count_valid-set s.parts (f.part_number - 1) old (part_of f) e fresh refl,
                );
              })
      (λ _. h)

abbrev Anything : List ℕ × List ℕ → Type 0
Anything r = Unit

join_parts-Returns :
    (is_stored : Bool) (parts : List Part) (left i : ℕ) (full indexes : List ℕ)
    → i + left ≤ length parts
    → Returns Anything (join_parts is_stored parts left i full indexes)
unfolding join_parts
join_parts-Returns is_stored parts zero i full indexes h = tt
join_parts-Returns is_stored parts (suc left) i full indexes h =
    Returns-read (λ p. Unit {0}) Anything parts i _ (omega arith) (any_parts parts)
      λ p _ _. join_parts-Returns is_stored parts left (i + 1) _ _ (omega arith)

abbrev pub BufferOf : List Slot × Option Push → Type 0
BufferOf r = IsBuffer r.0

place_fragment-Returns :
    (f : Fragment) (buf : List Slot) (slot : ℕ)
    → IsBuffer buf
    → slot < 5
    → Returns BufferOf (place_fragment f buf slot)
unfolding place_fragment
place_fragment-Returns f buf slot h lt =
    Returns-read IsSlot BufferOf buf slot _ (omega (arith, h.five_slots)) h.slots λ s _ wf.
      Returns-bind IsSlot BufferOf (keep_part f s) _ (keep_part-Returns f s wf) λ s' wf'.
        Returns-if BufferOf (leb f.total_parts s'.received_parts) _ _
          (λ complete.
            let in_range : 0 + f.total_parts ≤ length s'.parts =
              omega (tests, complete, wf'.counted, count_valid-le s'.parts) in
            Returns-bind Anything BufferOf (join_parts f.is_stored s'.parts f.total_parts 0 [] []) _
              (join_parts-Returns f.is_stored s'.parts f.total_parts 0 [] [] in_range)
              λ joined _.
                stored (record s' { in_use = false })
                  (record { ten_parts = wf'.ten_parts; counted = wf'.counted }))
          (λ _. stored s' wf')
  where
    stored : (s' : Slot) → IsSlot s' → IsBuffer (set buf slot s')
    stored s' wf = record {
      five_slots = omega (arith, h.five_slots, length-set buf slot s');
      slots = All-set IsSlot slot s' buf h.slots wf;
    }

-- On a well-formed buffer every fragment, whatever its numbers, is received without an access
-- outside the arrays, and leaves a well-formed buffer: five slots of ten parts, each of which
-- counts its valid parts exactly.
pub receive_fragment-Returns :
    (f : Fragment) (now : ℕ) (buf : List Slot)
    → IsBuffer buf
    → Returns BufferOf (receive_fragment f now buf)
unfolding receive_fragment
receive_fragment-Returns f now buf h =
    let found = find_or_create-IsBuffer f.ref_number f.sender f.total_parts now buf h in
    place_fragment-Returns f _ _ found.0 found.1

pub init-IsBuffer : IsBuffer init_concat_buffer
unfolding count_valid
init-IsBuffer = omega arith
