-- ===== src/Sms/Concat/Steps.antt =====
-- One fragment of a long message: the buffer before and after it.
use esp32c3_sms_gateway.Prelude.{
  ℕ, zero, suc, ◌+◌, ◌≤◌, ◌<◌, ◌≡◌, refl, ap, arith, true, false, none, some, List, [], ◌∷◌, map,
  length, length-set, get_elem?, get_elem?-set_self, set, All, if◌then◌else◌,
}
use esp32c3_sms_gateway.Prelude.Result.{ok}
use esp32c3_sms_gateway.Prelude.Text.{copy_str}
use esp32c3_sms_gateway.Sms.Concat.{
  Part, Slot, Push, part_of, same_message, find_slot, invalidate, update_at, place_fragment,
  receive_fragment,
}
use esp32c3_sms_gateway.Sms.Concat.Invariant.{find_or_create_known, find_slot-lt}
use esp32c3_sms_gateway.Sms.Concat.Reassembly.{
  mem, LongMessage, fragment_of, whole_text, all_indexes, bytes_eq_refl, IsPartial, with_part,
  join_parts-whole_text, keep_part-with_part, with_part-IsPartial,
}

find_slot-set :
    (ref : ℕ) (sdr : List ℕ) (buf : List Slot) (i : ℕ) (s : Slot)
    → find_slot ref sdr buf ≡ some i
    → same_message ref sdr s ≡ true
    → find_slot ref sdr (set buf i s) ≡ some i
unfolding find_slot
find_slot-set ref sdr [] i s e t = cc
find_slot-set ref sdr (x ∷ buf) zero s e t = ground arith
find_slot-set ref sdr (x ∷ buf) (suc i) s e t = ground (arith, find_slot-set ref sdr buf i s)

pub find_slot-update_at :
    (ref : ℕ) (sdr : List ℕ) (buf : List Slot) (i : ℕ) (f : Slot → Slot)
    → find_slot ref sdr buf ≡ none
    → i < length buf
    → ((s : Slot) → same_message ref sdr (f s) ≡ true)
    → find_slot ref sdr (update_at i f buf) ≡ some i
unfolding find_slot update_at
find_slot-update_at ref sdr [] i f e lt t = absurd (omega arith)
find_slot-update_at ref sdr (x ∷ buf) zero f e lt t = ground (arith, t x)
find_slot-update_at ref sdr (x ∷ buf) (suc i) f e lt t =
    ground (arith, find_slot-update_at ref sdr buf i f, t)

pub get_elem?-update_at :
    {A : Type 0} (xs : List A) (i : ℕ) (f : A → A) {x : A}
    → get_elem? xs i ≡ some x
    → get_elem? (update_at i f xs) i ≡ some (f x)
unfolding update_at
get_elem?-update_at [] i f e = cc
get_elem?-update_at (y ∷ xs) zero f e = cc
get_elem?-update_at (y ∷ xs) (suc i) f e = get_elem?-update_at xs i f e

pub set-set {ℓ} : {A : Type ℓ} (xs : List A) (i : ℕ) (a b : A) → set (set xs i a) i b ≡ set xs i b
set-set [] i a b = refl
set-set (x ∷ xs) zero a b = refl
set-set (x ∷ xs) (suc i) a b = ap (λ t. x ∷ t) (set-set xs i a b)

pub set-update_at {ℓ} :
    {A : Type ℓ} (xs : List A) (i : ℕ) (f : A → A) (b : A) → set (update_at i f xs) i b ≡ set xs i b
unfolding update_at
set-update_at [] i f b = refl
set-update_at (x ∷ xs) zero f b = refl
set-update_at (x ∷ xs) (suc i) f b = ap (λ t. x ∷ t) (set-update_at xs i f b)

pub get_elem?-invalidate :
    (ps : List Part) (j : ℕ) {p : Part}
    → get_elem? ps j ≡ some p
    → get_elem? (map invalidate ps) j ≡ some (invalidate p)
get_elem?-invalidate [] j e = cc
get_elem?-invalidate (q ∷ ps) zero e = cc
get_elem?-invalidate (q ∷ ps) (suc j) e = get_elem?-invalidate ps j e

pub All-at {ℓ} :
    {A : Type ℓ} (P : A → Type 0) (xs : List A) (i : ℕ) (x : A)
    → All P xs
    → get_elem? xs i ≡ some x
    → P x
All-at P [] i x h e = cc
All-at P (y ∷ xs) zero x h e = let same : y ≡ x = cc in rw (← same) h.0
All-at P (y ∷ xs) (suc i) x h e = All-at P xs i x h.1 e

module _ (m : LongMessage) where
  -- The push that the message ends in.
  abbrev pub whole_push : List ℕ → Push
  whole_push stamp = record {
    sender = m.sender;
    text = whole_text m m.parts 0;
    timestamp = stamp;
    indexes = if m.is_stored then all_indexes m m.parts 0 else [];
  }

  IsPartial-same_message :
      {got stamp : List ℕ} (s : Slot)
      → IsPartial m got stamp s
      → same_message m.ref m.sender s ≡ true
  unfolding same_message
  IsPartial-same_message s h =
      rw (h.used, h.same_ref, h.same_sender) (ground (arith, bytes_eq_refl m.sender))

  -- What is known of the buffer while the message is in slot `i`.
  pub record InSlot (got stamp : List ℕ) (buf : List Slot) (i : ℕ) (s : Slot) : Type 0 where
    pub found : find_slot m.ref m.sender buf ≡ some i
    pub content : get_elem? buf i ≡ some s
    pub ten : length s.parts ≡ 10
    pub partial : IsPartial m got stamp s

  pub receive_more :
      (got stamp : List ℕ) (buf : List Slot) (i j : ℕ) (s : Slot)
      → InSlot got stamp buf i s
      → j < 10
      → mem j got ≡ false
      → length got + 1 < m.parts
      → receive_fragment (fragment_of m j) (m.arrival j) buf
        ≡ ok (set buf i (with_part m s j), none)
  unfolding receive_fragment place_fragment
  receive_more got stamp buf i j s h lt fresh more =
      rw (find_or_create_known m.ref m.sender m.parts (m.arrival j) buf i h.found) (
        ground (
          arith,
          h.content,
          keep_part-with_part m got stamp s j h.partial lt fresh,
          h.partial.received,
        ))

  pub receive_last :
      (got stamp : List ℕ) (buf : List Slot) (i j : ℕ) (s : Slot)
      → InSlot got stamp buf i s
      → j < 10
      → mem j got ≡ false
      → length got + 1 ≡ m.parts
      → m.parts ≤ 10
      → (got ≡ [] → copy_str 32 (m.timestamp j) ≡ stamp)
      → ((k : ℕ) → k < m.parts → mem k (j ∷ got) ≡ true)
      → receive_fragment (fragment_of m j) (m.arrival j) buf
        ≡ ok (set buf i (record (with_part m s j) { in_use = false }), some (whole_push stamp))
  unfolding receive_fragment place_fragment
  receive_last got stamp buf i j s h lt fresh last small first covers =
      let full = with_part-IsPartial m got stamp s j h.partial lt h.ten first in
      let joined =
        join_parts-whole_text m (j ∷ got) (with_part m s j).parts m.parts 0 [] [] full.holds
          (λ k below. covers k (omega arith)) (omega arith) (omega arith) in
      let stamped : (with_part m s j).timestamp ≡ stamp = full.same_stamp (λ e. cc) in
      rw (find_or_create_known m.ref m.sender m.parts (m.arrival j) buf i h.found) (
        ground (
          arith,
          h.content,
          keep_part-with_part m got stamp s j h.partial lt fresh,
          joined,
          stamped,
          h.partial.received,
          h.partial.same_sender,
        ))

  pub InSlot-with_part :
      (got stamp : List ℕ) (buf : List Slot) (i j : ℕ) (s : Slot)
      → InSlot got stamp buf i s
      → j < 10
      → (got ≡ [] → copy_str 32 (m.timestamp j) ≡ stamp)
      → InSlot (j ∷ got) stamp (set buf i (with_part m s j)) i (with_part m s j)
  InSlot-with_part got stamp buf i j s h lt first =
      let more = with_part-IsPartial m got stamp s j h.partial lt h.ten first in
      record {
        found =
            find_slot-set m.ref m.sender buf i (with_part m s j) h.found
              (IsPartial-same_message (with_part m s j) more);
        content =
            get_elem?-set_self buf i (with_part m s j) (find_slot-lt m.ref m.sender buf i h.found);
        ten = omega (arith, h.ten, length-set s.parts j (part_of (fragment_of m j)));
        partial = more;
      }
