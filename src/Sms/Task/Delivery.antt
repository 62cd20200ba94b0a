-- ===== src/Sms/Task/Delivery.antt =====
-- A long message through the loop of the task: its fragments in any order, with the sweep after each.
use esp32c3_sms_gateway.Prelude.{
  ℕ, suc, ◌+◌, ◌≤◌, ◌<◌, ◌≡◌, ◌⊎◌, inl, inr, refl, sym, ap, ◌∙◌, arith, Bool, true, false, none,
  some, List, [], ◌∷◌, ◌++◌, length, get_elem?-lt, set, All, Bool-cases, ==_iff, ◌==◌, leb, ◌&&◌,
}
use esp32c3_sms_gateway.Prelude.Result.{Result, ok}
use esp32c3_sms_gateway.Prelude.Text.{copy_str}
use mathlib.Core.Path.{subst}
use esp32c3_sms_gateway.Sms.Blacklist.{is_blacklisted}
use esp32c3_sms_gateway.Sms.Concat.{
  Slot, max_delay, find_slot, pick_slot, claim_slot, receive_fragment,
}
use esp32c3_sms_gateway.Sms.Concat.Invariant.{IsSlot, IsBuffer, All-set}
use esp32c3_sms_gateway.Sms.Concat.Reassembly.{
  mem, NoRepeat, IsOrderOf, LongMessage, fragment_of, with_part,
}
use esp32c3_sms_gateway.Sms.Concat.Steps.{
  All-at, set-set, set-update_at, whole_push, InSlot, receive_more, receive_last, InSlot-with_part,
}
use esp32c3_sms_gateway.Sms.Concat.Claimed.{claimed, slot_below, receive_claimed, InSlot-claimed}
use esp32c3_sms_gateway.Sms.Task.{
  Settings, Call, send_with_ack, elapsed_ms, is_expired, Pass, arrives, nothing, pass,
  sms_processor_task,
}
use esp32c3_sms_gateway.Sms.Task.Fragments.{
  IsCalm, sweep-calm, IsInTime, pass-nothing, IsPart, pass-fragment,
}

module _ (settings : Settings) (stale : List ℕ) (m : LongMessage) where
  -- The passes bring the parts in this order and nothing else, and every sweep is in time.
  abbrev pub Brings : List Slot → ℕ → List ℕ → List Pass → Type 0
  Brings buf first order [] = order ≡ []
  Brings buf first order (nothing later ∷ ps) = IsInTime buf first later × Brings buf first order ps
  Brings buf first [] (arrives evt answer now later ∷ ps) = ⊥
  Brings buf first (j ∷ order) (arrives evt answer now later ∷ ps) =
      IsPart settings stale m evt answer now j
      × IsInTime buf first later
      × Brings buf first order ps

  -- One call, the push of the whole message, and only slot `i` of the buffer differs: it is free.
  pub record IsDelivered (buf : List Slot) (i : ℕ) (stamp : List ℕ)
      (r : Result (List Slot × List Call)) : Type 0 where
    pub slot : Slot
    pub free : slot.in_use ≡ false
    pub result : r ≡ ok (set buf i slot, send_with_ack (whole_push m stamp) ∷ [])

  module _ (buf : List Slot) (i first : ℕ) (stamp : List ℕ) where
    set-IsCalm :
        (s : Slot) (later : ℕ)
        → s.first_part_time ≡ first
        → IsInTime buf first later
        → IsCalm later (set buf i s)
    unfolding is_expired
    set-IsCalm s later since h =
        let young : leb 30000 (elapsed_ms later s.first_part_time) ≡ false =
          ap (λ t. leb 30000 (elapsed_ms later t)) since ∙ ground (arith, h.0) in
        All-set (λ s. is_expired later s ≡ false) i s buf h.1 (rw young (unused s.in_use))
      where
        unused : (b : Bool) → (b && false) ≡ false
        unused true = refl
        unused false = refl

    run_done :
        (ps : List Pass) (s : Slot)
        → s.first_part_time ≡ first
        → Brings buf first [] ps
        → sms_processor_task settings stale ps (set buf i s) ≡ ok (set buf i s, [])
    unfolding sms_processor_task pass
    run_done [] s since h = refl
    run_done (nothing later ∷ ps) s since h =
        rw (sweep-calm later (set buf i s) (set-IsCalm s later since h.0), run_done ps s since h.1)
          refl
    run_done (arrives evt answer now later ∷ ps) s since h = absurd h

    run_pass :
        (p : Pass) (ps : List Pass) (b b' : List Slot) (calls : List Call)
        → pass settings stale p b ≡ ok (b', calls)
        → {last : List Slot} {more : List Call}
        → sms_processor_task settings stale ps b' ≡ ok (last, more)
        → sms_processor_task settings stale (p ∷ ps) b ≡ ok (last, calls ++ more)
    unfolding sms_processor_task
    run_pass p ps b b' calls now later = rw (now, later) refl

    run_rest :
        (ps : List Pass) (j : ℕ) (rest got : List ℕ) (s : Slot) (b0 b : List Slot)
        → is_blacklisted settings.admin_phone settings.black_list m.sender ≡ false
        → InSlot m got stamp b i s
        → s.first_part_time ≡ first
        → ((x : Slot) → set b i x ≡ set buf i x)
        → receive_fragment (fragment_of m j) (m.arrival j) b0
          ≡ receive_fragment (fragment_of m j) (m.arrival j) b
        → ((later : ℕ) → IsInTime buf first later → IsCalm later b0)
        → m.parts ≤ 10
        → All (λ k. k < m.parts) (j ∷ rest)
        → NoRepeat (j ∷ rest)
        → ((k : ℕ) → mem k (j ∷ rest) ≡ true → mem k got ≡ false)
        → length got + suc (length rest) ≡ m.parts
        → (got ≡ [] → copy_str 32 (m.timestamp j) ≡ stamp)
        → ((k : ℕ) → k < m.parts → (mem k got ≡ true) ⊎ (mem k (j ∷ rest) ≡ true))
        → Brings buf first (j ∷ rest) ps
        → IsDelivered buf i stamp (sms_processor_task settings stale ps b0)
    unfolding mem
    run_rest [] j rest got s b0 b allowed h since over from calm small range apart fresh count start
          covers brings =
        absurd (not_empty brings)
      where
        not_empty : ◌≡◌ {A = List ℕ} (j ∷ rest) [] → ⊥
        not_empty e = cc
    run_rest (nothing later ∷ ps) j rest got s b0 b allowed h since over from calm small range apart
          fresh count start covers brings =
        let more =
          run_rest ps j rest got s b0 b allowed h since over from calm small range apart fresh count
            start covers brings.1 in
        record {
          slot = more.slot;
          free = more.free;
          result =
              run_pass (nothing later) ps b0 b0 []
                (pass-nothing settings stale later b0 (calm later brings.0)) more.result;
        }
    run_rest (arrives evt answer now later ∷ ps) j [] got s b0 b allowed h since over from calm
          small range apart fresh count start covers (part, in_time, brings) =
        let freed : Slot = record (with_part m s j) { in_use = false } in
        let received : receive_fragment (fragment_of m j) (m.arrival j) b0
            ≡ ok (set buf i freed, some (whole_push m stamp)) =
          from
          ∙ receive_last m got stamp b i j s h (omega (arith, range.0)) (fresh j (ground arith))
              (omega arith) small start (λ k below. ground (arith, covers k below))
          ∙ ap (λ t. ok (t, some (whole_push m stamp))) (over freed) in
        record {
          slot = freed;
          free = refl;
          result =
              run_pass (arrives evt answer now later) ps b0 (set buf i freed)
                (send_with_ack (whole_push m stamp) ∷ [])
                (pass-fragment settings stale m evt answer now later j b0 (set buf i freed) _ part
                  allowed received (set-IsCalm freed later since in_time))
                (run_done ps freed since brings);
        }
    run_rest (arrives evt answer now later ∷ ps) j (j' ∷ rest) got s b0 b allowed h since over from
          calm small range apart fresh count start covers (part, in_time, brings) =
        let lt : j < 10 = omega (arith, range.0) in
        let next : Slot = with_part m s j in
        let received : receive_fragment (fragment_of m j) (m.arrival j) b0
            ≡ ok (set buf i next, none) =
          from
          ∙ receive_more m got stamp b i j s h lt (fresh j (ground arith)) (omega arith)
          ∙ ap (λ t. ok (t, none)) (over next) in
        let known : InSlot m (j ∷ got) stamp (set buf i next) i next =
          subst (λ t. InSlot m (j ∷ got) stamp t i next) (over next)
            (InSlot-with_part m got stamp b i j s h lt start) in
        let more =
          run_rest ps j' rest (j ∷ got) next (set buf i next) (set buf i next) allowed known since
            (λ x. set-set buf i next x) refl (λ tick k. set-IsCalm next tick since k) small range.1
            apart.1 (λ k known. still_fresh k known (Bool-cases (j == k))) (omega arith) (λ e. cc)
            (λ k below. covered k (covers k below)) brings in
        record {
          slot = more.slot;
          free = more.free;
          result =
              run_pass (arrives evt answer now later) ps b0 (set buf i next) []
                (pass-fragment settings stale m evt answer now later j b0 (set buf i next) none part
                  allowed received (set-IsCalm next later since in_time))
                more.result;
        }
      where
        still_fresh :
            (k : ℕ)
            → mem k (j' ∷ rest) ≡ true
            → (j == k ≡ true) ⊎ (j == k ≡ false)
            → mem k (j ∷ got) ≡ false
        still_fresh k known (inl same) =
            let e : j ≡ k = (==_iff j k).0 same in
            let no : mem k (j' ∷ rest) ≡ false = sym (ap (λ t. mem t (j' ∷ rest)) e) ∙ apart.0 in cc
        still_fresh k known (inr other) = ground (arith, fresh k (ground arith))

        covered :
            (k : ℕ)
            → (mem k got ≡ true) ⊎ (mem k (j ∷ j' ∷ rest) ≡ true)
            → (mem k (j ∷ got) ≡ true) ⊎ (mem k (j' ∷ rest) ≡ true)
        covered k (inl e) = inl (ground arith)
        covered k (inr e) = elim (Bool-cases (j == k)) [
          | inl same ↦ inl (ground arith)
          | inr other ↦ inr (ground arith)
        ]

  -- Any passes of the task that bring all parts of a message of at most ten parts, each once and in any
  -- order, with passes without an event between them and no other event, at a well-formed buffer that
  -- does not know the message, whose sender fits its array. Where every sweep comes less than 30 seconds after the first part, and no other message
  -- in the buffer is due at a sweep, and the sender is not on the black list: the passes make one call,
  -- the push of the texts (each cut to its array) in the order of their part numbers, with the first
  -- arrival's time stamp and, for stored messages, the storage index of every part. No other slot changes, and the one used
  -- is free again.
  pub sms_processor_task-IsDelivered :
      (passes : List Pass) (j : ℕ) (rest : List ℕ) (buf : List Slot)
      → IsBuffer buf
      → find_slot m.ref m.sender buf ≡ none
      → copy_str 20 m.sender ≡ m.sender
      → is_blacklisted settings.admin_phone settings.black_list m.sender ≡ false
      → m.parts ≤ 10
      → IsOrderOf m.parts (j ∷ rest)
      → Brings buf (m.arrival j) (j ∷ rest) passes
      → IsDelivered buf
          (pick_slot buf 0 0 max_delay)
          (copy_str 32 (m.timestamp j))
          (sms_processor_task settings stale passes buf)
  unfolding mem claim_slot
  sms_processor_task-IsDelivered passes j rest buf wf unknown fits allowed small order brings =
      let i = pick_slot buf 0 0 max_delay in
      let (s, e) = get_elem?-lt buf i (slot_below m buf wf unknown fits) in
      run_rest buf i (m.arrival j) (copy_str 32 (m.timestamp j)) passes j rest []
        (claim_slot m.ref m.sender m.parts (m.arrival j) s) buf (claimed m (m.arrival j) buf)
        allowed (InSlot-claimed m buf wf unknown fits j s e (All-at IsSlot buf i s wf.slots e)) refl
        (λ x. set-update_at buf i (claim_slot m.ref m.sender m.parts (m.arrival j)) x)
        (receive_claimed m buf wf unknown fits (fragment_of m j) (m.arrival j) refl refl refl)
        (λ later k. k.1) small order.in_range order.no_repeat (λ k known. refl)
        (omega (arith, order.count)) (λ e. refl) (λ k below. inr (order.covers k below)) brings
