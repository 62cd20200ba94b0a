-- ===== src/Sms/Concat.antt =====
-- The reassembly buffer of sms_processor.c: five slots of ten parts each.
pub mod Invariant
pub mod Reassembly
pub mod Steps
pub mod Claimed
use esp32c3_sms_gateway.Prelude.{
  ℕ, zero, suc, ◌+◌, ◌-◌, Bool, true, false, ◌&&◌, Option, none, some, List, [], ◌∷◌, ◌++◌, map,
  replicate, set, take, ltb, leb, ◌==◌, if◌then◌else◌,
}
use esp32c3_sms_gateway.Prelude.Result.{Result, ok, read, ◌>>=◌}
use esp32c3_sms_gateway.Prelude.Text.{copy_str, c_str, bytes_eq}

abbrev pub max_parts : ℕ
max_parts = 10

abbrev pub max_messages : ℕ
max_messages = 5

-- `sms_part_t`
pub record Part : Type 0 where
  pub valid : Bool
  pub sms_index : ℕ
  pub text : List ℕ

-- `concat_sms_t`
pub record Slot : Type 0 where
  pub in_use : Bool
  pub ref_number : ℕ
  pub sender : List ℕ
  pub timestamp : List ℕ
  pub total_parts : ℕ
  pub received_parts : ℕ
  pub first_part_time : ℕ
  pub parts : List Part

abbrev pub zero_part : Part
zero_part = record { valid = false; sms_index = 0; text = [] }

abbrev pub zero_slot : Slot
zero_slot = record {
  in_use = false;
  ref_number = 0;
  sender = [];
  timestamp = [];
  total_parts = 0;
  received_parts = 0;
  first_part_time = 0;
  parts = replicate max_parts zero_part;
}

-- `init_concat_buffer`, where the allocation succeeds.
abbrev pub init_concat_buffer : List Slot
init_concat_buffer = replicate max_messages zero_slot

-- What a fragment brings: the fields of `decoded_sms` that the reassembly reads, and the event's.
pub record Fragment : Type 0 where
  pub ref_number : ℕ
  pub sender : List ℕ
  pub timestamp : List ℕ
  pub text : List ℕ
  pub total_parts : ℕ
  pub part_number : ℕ
  pub sms_index : ℕ
  pub is_stored : Bool

unfoldable pub same_message : ℕ → List ℕ → Slot → Bool
same_message ref sdr s = s.in_use && s.ref_number == ref && bytes_eq s.sender sdr

-- The first loop: the index of a slot for this message.
unfoldable pub find_slot : ℕ → List ℕ → List Slot → Option ℕ
find_slot ref sdr [] = none
find_slot ref sdr (s ∷ buf) =
    let later = find_slot ref sdr buf in
    if same_message ref sdr s then some 0 else elim later [ none ↦ none | some i ↦ some (suc i) ]

-- The second loop from index `i` on: a free slot, or else the oldest one.
unfoldable pub pick_slot : List Slot → ℕ → ℕ → ℕ → ℕ
pick_slot [] i oldest_slot oldest_time = oldest_slot
pick_slot (s ∷ buf) i oldest_slot oldest_time =
    let older = ltb s.first_part_time oldest_time in
    let rest =
      pick_slot buf (i + 1) (if older then i else oldest_slot)
        (if older then s.first_part_time else oldest_time) in
    if s.in_use then rest else i

-- `portMAX_DELAY`
abbrev pub max_delay : ℕ
max_delay = 0xffff_ffff

abbrev pub invalidate : Part → Part
invalidate p = record p { valid = false }

-- The fields that a new message sets; the time stamp keeps its old content until the first part.
unfoldable pub claim_slot : ℕ → List ℕ → ℕ → ℕ → Slot → Slot
claim_slot ref sdr tot now s = record s {
  in_use = true;
  ref_number = ref;
  sender = copy_str 20 sdr;
  total_parts = tot;
  received_parts = 0;
  first_part_time = now;
  parts = map invalidate s.parts;
}

-- `update_at i f xs` is `xs[i] = f(xs[i])`.
unfoldable pub update_at {ℓ} : {A : Type ℓ} → ℕ → (A → A) → List A → List A
update_at i f [] = []
update_at zero f (x ∷ xs) = f x ∷ xs
update_at (suc i) f (x ∷ xs) = x ∷ update_at i f xs

unfoldable pub find_or_create_concat_slot : ℕ → List ℕ → ℕ → ℕ → List Slot → List Slot × ℕ
find_or_create_concat_slot ref sdr tot now buf = elim (find_slot ref sdr buf) [
  | some i ↦ (buf, i)
  | none ↦ let i = pick_slot buf 0 0 max_delay in (update_at i (claim_slot ref sdr tot now) buf, i)
]

-- What is stored of a fragment.
abbrev pub part_of : Fragment → Part
part_of f = record { valid = true; sms_index = f.sms_index; text = copy_str 480 f.text }

-- The fragment is kept if its place is in range and still empty; the first one brings the time.
unfoldable pub keep_part : Fragment → Slot → Result Slot
keep_part f s =
    let p_idx = f.part_number - 1 in
    if ltb 0 f.part_number && ltb p_idx max_parts
    then (do
      old ← read s.parts p_idx
      if old.valid
          then ok s
          else ok (record s {
            parts = set s.parts p_idx (part_of f);
            received_parts = s.received_parts + 1;
            timestamp = if s.received_parts + 1 == 1 then copy_str 32 f.timestamp else s.timestamp;
          }))
    else ok s

-- `strlcat(full_text, text, sizeof(full_text))`
unfoldable pub append_text : List ℕ → List ℕ → List ℕ
append_text full text = take 4799 (full ++ c_str text)

-- The loop over parts `i` to `i + left - 1` that joins the valid ones, and collects their indices
-- where the messages are stored in the module.
unfoldable pub join_parts : Bool → List Part → ℕ → ℕ → List ℕ → List ℕ → Result (List ℕ × List ℕ)
join_parts is_stored parts zero i full indexes = ok (full, indexes)
join_parts is_stored parts (suc left) i full indexes = do
  p ← read parts i
  join_parts is_stored parts left (i + 1) (if p.valid then append_text full p.text else full)
      (if p.valid && is_stored then indexes ++ (p.sms_index ∷ []) else indexes)

-- A call of `push_service_send_with_ack`; `indexes` is empty for a null array.
pub record Push : Type 0 where
  pub sender : List ℕ
  pub text : List ℕ
  pub timestamp : List ℕ
  pub indexes : List ℕ

-- A fragment in its slot: the new buffer, and the push of a message that it completes.
unfoldable pub place_fragment : Fragment → List Slot → ℕ → Result (List Slot × Option Push)
place_fragment f buf slot = do
  s ← read buf slot
  s' ← keep_part f s
  if leb f.total_parts s'.received_parts
      then (do
        (full, indexes) ← join_parts f.is_stored s'.parts f.total_parts 0 [] []
        ok (
          set buf slot (record s' { in_use = false }),
          some (record {
            sender = s'.sender;
            text = full;
            timestamp = s'.timestamp;
            indexes = indexes;
          }),
        ))
      else ok (set buf slot s', none)

-- The branch of the task for a fragment of a long message.
unfoldable pub receive_fragment : Fragment → ℕ → List Slot → Result (List Slot × Option Push)
receive_fragment f now buf =
    let (buf1, slot) = find_or_create_concat_slot f.ref_number f.sender f.total_parts now buf in
    place_fragment f buf1 slot
