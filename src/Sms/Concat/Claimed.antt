-- ===== src/Sms/Concat/Claimed.antt =====
-- The first fragment of a long message claims a slot.
use esp32c3_sms_gateway.Prelude.{
  ℕ, ◌<◌, ◌≡◌, refl, arith, true, none, some, List, [], map, length, get_elem?, get_elem?-lt,
}
use esp32c3_sms_gateway.Prelude.Text.{copy_str}
use esp32c3_sms_gateway.Sms.Concat.{
  Part, Slot, Fragment, max_delay, same_message, find_slot, pick_slot, invalidate, claim_slot,
  update_at, receive_fragment,
}
use esp32c3_sms_gateway.Sms.Concat.Invariant.{
  IsSlot, IsBuffer, length-invalidate, pick_slot-lt, find_or_create_known, find_or_create_new,
}
use esp32c3_sms_gateway.Sms.Concat.Reassembly.{mem, LongMessage, bytes_eq_refl, Holds}
use esp32c3_sms_gateway.Sms.Concat.Steps.{
  find_slot-update_at, get_elem?-update_at, get_elem?-invalidate, InSlot,
}

module _ (m : LongMessage) where
  Holds-invalidate : (ps : List Part) → length ps ≡ 10 → Holds m [] (map invalidate ps)
  unfolding mem
  Holds-invalidate ps ten j lt =
      let (p, e) = get_elem?-lt ps j (omega (arith, ten)) in
      (invalidate p, get_elem?-invalidate ps j e, refl, λ e. cc)

  -- The buffer in which the message has claimed its slot.
  abbrev pub claimed : ℕ → List Slot → List Slot
  claimed now buf =
      update_at (pick_slot buf 0 0 max_delay) (claim_slot m.ref m.sender m.parts now) buf

  module _ (buf : List Slot) (wf : IsBuffer buf) (unknown : find_slot m.ref m.sender buf ≡ none)
      (fits : copy_str 20 m.sender ≡ m.sender) where
    pub slot_below : pick_slot buf 0 0 max_delay < length buf
    slot_below = pick_slot-lt buf (omega (arith, wf.five_slots))

    found_claimed :
        (now : ℕ) → find_slot m.ref m.sender (claimed now buf) ≡ some (pick_slot buf 0 0 max_delay)
    unfolding same_message claim_slot
    found_claimed now =
        find_slot-update_at m.ref m.sender buf _ _ unknown slot_below (claimed_same now)
      where
        claimed_same :
            (now : ℕ) (s : Slot)
            → same_message m.ref m.sender (claim_slot m.ref m.sender m.parts now s) ≡ true
        claimed_same now s = rw fits (ground (arith, bytes_eq_refl m.sender))

    pub receive_claimed :
        (f : Fragment) (now : ℕ)
        → f.ref_number ≡ m.ref
        → f.sender ≡ m.sender
        → f.total_parts ≡ m.parts
        → receive_fragment f now buf ≡ receive_fragment f now (claimed now buf)
    unfolding receive_fragment
    receive_claimed f now r d t =
        rw
          (
            r,
            d,
            t,
            find_or_create_new m.ref m.sender m.parts now buf unknown,
            find_or_create_known m.ref m.sender m.parts now (claimed now buf) _ (found_claimed now),
          )
          refl

    pub InSlot-claimed :
        (j : ℕ) (s : Slot)
        → get_elem? buf (pick_slot buf 0 0 max_delay) ≡ some s
        → IsSlot s
        → InSlot m []
            (copy_str 32 (m.timestamp j))
            (claimed (m.arrival j) buf)
            (pick_slot buf 0 0 max_delay)
            (claim_slot m.ref m.sender m.parts (m.arrival j) s)
    unfolding claim_slot
    InSlot-claimed j s e h = record {
      found = found_claimed (m.arrival j);
      content = get_elem?-update_at buf _ (claim_slot m.ref m.sender m.parts (m.arrival j)) e;
      ten = omega (arith, h.ten_parts, length-invalidate s.parts);
      partial = record {
        used = refl;
        same_ref = refl;
        same_sender = fits;
        same_stamp = λ n. absurd (n refl);
        received = refl;
        holds = Holds-invalidate s.parts h.ten_parts;
      };
    }
