-- ===== src/Sms/Task/LateFragment.antt =====
-- How a message that announces more parts than a slot has reaches the sweep.
use esp32c3_sms_gateway.Prelude.{
  ℕ, zero, suc, ◌-◌, ◌≤◌, ◌<◌, ◌≡◌, refl, ap, arith, true, ◌&&◌, Option, none, some, List, [], ◌∷◌,
  ◌++◌, set, take, drop, get_elem?, get_elem?-lt, length, length-set, All, ltb, leb, tests,
}
use esp32c3_sms_gateway.Prelude.Result.{
  fault, Returns, Returns-bind, Returns-read, Returns-read_at, Returns-if,
}
use esp32c3_sms_gateway.Sms.Concat.{
  Slot, Fragment, Push, part_of, claim_slot, update_at, pick_slot, max_delay, find_slot, keep_part,
  max_parts, place_fragment, receive_fragment,
}
use esp32c3_sms_gateway.Sms.Concat.Invariant.{
  IsSlot, IsBuffer, find_or_create_new, length-update_at, pick_slot-lt, length-invalidate,
}
use esp32c3_sms_gateway.Sms.Concat.Steps.{All-at, get_elem?-update_at}
use esp32c3_sms_gateway.Sms.Task.{is_expired, elapsed_ms, concat_timeout, sweep}
use esp32c3_sms_gateway.Sms.Task.Overread.{sweep-overread}

set_split {ℓ} :
    {A : Type ℓ} (xs : List A) (i : ℕ) (v : A)
    → i < length xs
    → set xs i v ≡ take i xs ++ v ∷ drop (suc i) xs
set_split [] i v h = absurd (omega arith)
set_split (x ∷ xs) zero v h = refl
set_split (x ∷ xs) (suc i) v h = ap (λ t. x ∷ t) (set_split xs i v (omega arith))

any {ℓ} : {A : Type ℓ} (xs : List A) → All (λ p. Unit {0}) xs
any [] = tt
any (x ∷ xs) = (tt, any xs)

-- A slot that waits since `now` for `total` parts and has at most one.
record Waits (total now : ℕ) (s : Slot) : Type 0 where
  used : s.in_use ≡ true
  expects : s.total_parts ≡ total
  since : s.first_part_time ≡ now
  ten : length s.parts ≡ 10
  few : s.received_parts ≤ 1

claim_slot-Waits :
    (f : Fragment) (now : ℕ) (s : Slot)
    → IsSlot s
    → Waits f.total_parts now (claim_slot f.ref_number f.sender f.total_parts now s)
unfolding claim_slot
claim_slot-Waits f now s h = record {
  used = refl;
  expects = refl;
  since = refl;
  ten = omega (arith, h.ten_parts, length-invalidate s.parts);
  few = omega arith;
}

keep_part-Waits :
    (f : Fragment) (now : ℕ) (s : Slot)
    → Waits f.total_parts now s
    → s.received_parts ≡ 0
    → Returns (Waits f.total_parts now) (keep_part f s)
unfolding keep_part
keep_part-Waits f now s h e =
    Returns-if (Waits f.total_parts now) (ltb 0 f.part_number && ltb (f.part_number - 1) max_parts)
      _ _
      (λ below.
        Returns-read (λ p. Unit {0}) (Waits f.total_parts now) s.parts (f.part_number - 1) _
          (ground (arith, below, h.ten)) (any s.parts)
          λ old _ _.
            Returns-if (Waits f.total_parts now) old.valid _ _ (λ _. h)
              λ fresh. record {
                used = h.used;
                expects = h.expects;
                since = h.since;
                ten = omega (arith, h.ten, length-set s.parts (f.part_number - 1) (part_of f));
                few = omega (arith, e);
              })
      (λ _. h)

Waits-overread :
    (buf : List Slot) (i : ℕ) (s : Slot) (total now later : ℕ)
    → i < length buf
    → Waits total now s
    → 10 < total
    → concat_timeout ≤ elapsed_ms later now
    → sweep later (set buf i s) ≡ fault
unfolding is_expired
Waits-overread buf i s total now later lt h big old = rw (set_split buf i s lt) (
    sweep-overread later (take i buf) s (drop (suc i) buf) (rw (h.used, h.since) (ground arith))
      (omega (arith, h.ten, h.expects)))

abbrev pub Overreads : ℕ → List Slot × Option Push → Type 0
Overreads later r = sweep later r.0 ≡ fault

place_late :
    (f : Fragment) (buf : List Slot) (i now later : ℕ) (s : Slot)
    → get_elem? buf i ≡ some s
    → i < length buf
    → Waits f.total_parts now s
    → s.received_parts ≡ 0
    → 10 < f.total_parts
    → concat_timeout ≤ elapsed_ms later now
    → Returns (Overreads later) (place_fragment f buf i)
unfolding place_fragment
place_late f buf i now later s e lt h zero_received big old =
    Returns-read_at (Overreads later) buf i _ e (
      Returns-bind (Waits f.total_parts now) (Overreads later) (keep_part f s) _
        (keep_part-Waits f now s h zero_received)
        λ s' w.
          Returns-if (Overreads later) (leb f.total_parts s'.received_parts) _ _
            (λ complete. absurd (omega (tests, complete, w.few)))
            (λ _. Waits-overread buf i s' f.total_parts now later lt w big old))

-- A fragment of an unknown message that announces more than ten parts is accepted into a slot, and
-- the next sweep that runs at least 30 seconds later reads outside the array of parts.
pub late_fragment-overread :
    (f : Fragment) (now later : ℕ) (buf : List Slot)
    → IsBuffer buf
    → find_slot f.ref_number f.sender buf ≡ none
    → 10 < f.total_parts
    → concat_timeout ≤ elapsed_ms later now
    → Returns (Overreads later) (receive_fragment f now buf)
unfolding receive_fragment claim_slot
late_fragment-overread f now later buf wf unknown big old =
    let i = pick_slot buf 0 0 max_delay in
    let below : i < length buf = pick_slot-lt buf (omega (arith, wf.five_slots)) in
    let (s, e) = get_elem?-lt buf i below in
    let claimed = claim_slot f.ref_number f.sender f.total_parts now in
    rw (find_or_create_new f.ref_number f.sender f.total_parts now buf unknown) (
      place_late f (update_at i claimed buf) i now later (claimed s)
        (get_elem?-update_at buf i claimed e) (omega (arith, below, length-update_at i claimed buf))
        (claim_slot-Waits f now s (All-at IsSlot buf i s wf.slots e)) refl big old)
