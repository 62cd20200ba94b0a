-- ===== src/Sms/Concat/Reassembly.antt =====
-- The fragments of one long message, in whatever order they arrive, are pushed as one text.
use esp32c3_sms_gateway.Prelude.{
  take_all, ℕ, zero, suc, ◌+◌, ◌-◌, ◌*◌, ◌≤◌, ◌<◌, ◌≡◌, ◌≢◌, inl, inr, refl, ap, ◌∙◌, arith, Bool,
  true, false, ◌||◌, some, List, [], ◌∷◌, ◌++◌, length, length-append, length-take, take, get_elem?,
  get_elem?-set_self, get_elem?-set_ne, set, All, Bool-cases, ==_iff, ◌==◌, if◌then◌else◌,
}
use esp32c3_sms_gateway.Prelude.Result.{ok}
use esp32c3_sms_gateway.Prelude.Text.{c_str, copy_str, bytes_eq}
use esp32c3_sms_gateway.Sms.Concat.{
  Part, Slot, Fragment, part_of, keep_part, append_text, join_parts,
}
use mathlib.Core.List.{append-nil, append_assoc}

unfoldable pub mem : ℕ → List ℕ → Bool
mem j [] = false
mem j (i ∷ is) = i == j || mem j is

abbrev pub NoRepeat : List ℕ → Type 0
NoRepeat [] = Unit
NoRepeat (i ∷ is) = (mem i is ≡ false) × NoRepeat is

-- `order` names each of the parts 0 to n - 1 once.
pub record IsOrderOf (n : ℕ) (order : List ℕ) : Type 0 where
  pub no_repeat : NoRepeat order
  pub count : length order ≡ n
  pub in_range : All (λ j. j < n) order
  pub covers : (j : ℕ) → j < n → mem j order ≡ true

-- A long message: the texts, time stamps, storage indices and arrival ticks of its parts.
pub record LongMessage : Type 0 where
  pub ref : ℕ
  pub sender : List ℕ
  pub parts : ℕ
  pub is_stored : Bool
  pub text : ℕ → List ℕ
  pub timestamp : ℕ → List ℕ
  pub sms_index : ℕ → ℕ
  pub arrival : ℕ → ℕ

abbrev pub fragment_of : LongMessage → ℕ → Fragment
fragment_of m j = record {
  ref_number = m.ref;
  sender = m.sender;
  timestamp = m.timestamp j;
  text = m.text j;
  total_parts = m.parts;
  part_number = suc j;
  sms_index = m.sms_index j;
  is_stored = m.is_stored;
}

-- What the array of a part holds of its text.
abbrev pub piece : LongMessage → ℕ → List ℕ
piece m j = copy_str 480 (m.text j)

-- The texts of the parts from `i` on, in the order of the parts.
unfoldable pub whole_text : LongMessage → ℕ → ℕ → List ℕ
whole_text m zero i = []
whole_text m (suc left) i = piece m i ++ whole_text m left (i + 1)

unfoldable pub all_indexes : LongMessage → ℕ → ℕ → List ℕ
all_indexes m zero i = []
all_indexes m (suc left) i = m.sms_index i ∷ all_indexes m left (i + 1)

pub bytes_eq_refl : (s : List ℕ) → bytes_eq s s ≡ true
unfolding bytes_eq
bytes_eq_refl [] = refl
bytes_eq_refl (c ∷ s) = ground (arith, bytes_eq_refl s)

c_str-take : (n : ℕ) (s : List ℕ) → c_str (take n (c_str s)) ≡ take n (c_str s)
unfolding c_str
c_str-take zero s = refl
c_str-take (suc n) [] = refl
c_str-take (suc n) (c ∷ s) = ground (arith, c_str-take n s)

length-piece : (m : LongMessage) (j : ℕ) → length (piece m j) ≤ 479
unfolding copy_str
length-piece m j = omega (arith, length-take 479 (c_str (m.text j)))

append_text-piece :
    (m : LongMessage) (j : ℕ) (full : List ℕ)
    → length full + 479 ≤ 4799
    → append_text full (piece m j) ≡ full ++ piece m j
unfolding append_text copy_str
append_text-piece m j full h = rw (c_str-take 479 (m.text j)) (
    take_all 4799 (full ++ piece m j)
      (omega (arith, length-append full (piece m j), length-piece m j)))

module _ (m : LongMessage) where
  -- The parts `got` are stored, and no others are valid.
  abbrev pub Holds : List ℕ → List Part → Type 0
  Holds got ps =
      (j : ℕ)
      → j < 10
      → (p : Part) × (get_elem? ps j ≡ some p)
        × (p.valid ≡ mem j got)
        × (mem j got ≡ true → p ≡ part_of (fragment_of m j))

  pub join_parts-whole_text :
      (got : List ℕ) (ps : List Part) (left i : ℕ) (full indexes : List ℕ)
      → Holds got ps
      → ((j : ℕ) → j < i + left → mem j got ≡ true)
      → i + left ≤ 10
      → length full + 479 * left ≤ 4799
      → join_parts m.is_stored ps left i full indexes
        ≡ ok (
          full ++ whole_text m left i,
          if m.is_stored then indexes ++ all_indexes m left i else indexes,
        )
  unfolding join_parts whole_text all_indexes
  join_parts-whole_text got ps zero i full indexes h c r b =
      ground (arith, append-nil full, append-nil indexes)
  join_parts-whole_text got ps (suc left) i full indexes h c r b =
      let (p, e, v, w) = h i (omega arith) in
      let valid : p.valid ≡ true = v ∙ c i (omega arith) in
      let indexes' = if m.is_stored then indexes ++ (m.sms_index i ∷ []) else indexes in
      ground (
        arith,
        e,
        valid,
        w (c i (omega arith)),
        append_text-piece m i full,
        join_parts-whole_text got ps left (i + 1) (full ++ piece m i) indexes' h
            (λ j lt. c j (omega arith)) (omega arith)
            (omega (arith, length-append full (piece m i), length-piece m i)),
        append_assoc full (piece m i) (whole_text m left (i + 1)),
        append_assoc indexes (m.sms_index i ∷ []) (all_indexes m left (i + 1)),
      )

  -- The slot of the message after the fragments `got`.
  pub record IsPartial (got : List ℕ) (stamp : List ℕ) (s : Slot) : Type 0 where
    pub used : s.in_use ≡ true
    pub same_ref : s.ref_number ≡ m.ref
    pub same_sender : s.sender ≡ m.sender
    pub same_stamp : got ≢ [] → s.timestamp ≡ stamp
    pub received : s.received_parts ≡ length got
    pub holds : Holds got s.parts

  Holds-set :
      (got : List ℕ) (ps : List Part) (j : ℕ)
      → j < 10
      → length ps ≡ 10
      → Holds got ps
      → Holds (j ∷ got) (set ps j (part_of (fragment_of m j)))
  unfolding mem
  Holds-set got ps j lt len h k below = elim (Bool-cases (j == k)) [
    | inl same ↦
        let e : j ≡ k = (==_iff j k).0 same in
        (
          part_of (fragment_of m j),
          rw (← e) (get_elem?-set_self ps j (part_of (fragment_of m j)) (omega arith)),
          ground arith,
          λ _. ap (λ t. part_of (fragment_of m t)) e,
        )
    | inr other ↦
        let (p, e, v, w) = h k below in
        (
          p,
          get_elem?-set_ne ps j k (part_of (fragment_of m j)) (ground arith) ∙ e,
          ground arith,
          λ t. w (ground arith),
        )
  ]

  -- The slot with one more part.
  abbrev pub with_part : Slot → ℕ → Slot
  with_part s j = record s {
    parts = set s.parts j (part_of (fragment_of m j));
    received_parts = s.received_parts + 1;
    timestamp = if s.received_parts + 1 == 1 then copy_str 32 (m.timestamp j) else s.timestamp;
  }

  pub keep_part-with_part :
      (got stamp : List ℕ) (s : Slot) (j : ℕ)
      → IsPartial got stamp s
      → j < 10
      → mem j got ≡ false
      → keep_part (fragment_of m j) s ≡ ok (with_part s j)
  unfolding keep_part
  keep_part-with_part got stamp s j h lt fresh =
      let (p, e, v, w) = h.holds j lt in
      let index : suc j - 1 ≡ j = omega arith in
      let empty : p.valid ≡ false = v ∙ fresh in rw index (ground (arith, e, empty))

  pub with_part-IsPartial :
      (got stamp : List ℕ) (s : Slot) (j : ℕ)
      → IsPartial got stamp s
      → j < 10
      → length s.parts ≡ 10
      → (got ≡ [] → copy_str 32 (m.timestamp j) ≡ stamp)
      → IsPartial (j ∷ got) stamp (with_part s j)
  with_part-IsPartial got stamp s j h lt len first = record {
    used = h.used;
    same_ref = h.same_ref;
    same_sender = h.same_sender;
    same_stamp = λ _. stamp_of got h.received h.same_stamp first;
    received = omega (arith, h.received);
    holds = Holds-set got s.parts j lt len h.holds;
  }
    where
      stamp_of :
          (got : List ℕ)
          → s.received_parts ≡ length got
          → (got ≢ [] → s.timestamp ≡ stamp)
          → (got ≡ [] → copy_str 32 (m.timestamp j) ≡ stamp)
          → (if s.received_parts + 1 == 1 then copy_str 32 (m.timestamp j) else s.timestamp) ≡ stamp
      stamp_of [] r k f = ground (arith, f refl)
      stamp_of (i ∷ is) r k f = ground (arith, k (λ e. cc))
