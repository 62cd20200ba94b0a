-- ===== src/Push/Task/Cleanup.antt =====
-- Which stored messages a pass deletes, and what was sent of them.
use esp32c3_sms_gateway.Prelude.{
  ℕ, ◌≤◌, ◌<◌, ◌≡◌, ◌≢◌, ◌⊎◌, inl, inr, refl, ap, ◌∙◌, arith, Bool, true, false, Bool-cases, ◌||◌,
  some, List, [], ◌∷◌, length, length-take, take, take_all, ltb, All, if◌then◌else◌,
}
use esp32c3_sms_gateway.Prelude.Result.{ok}
use esp32c3_sms_gateway.Prelude.Text.{c_str, copy_str}
use esp32c3_sms_gateway.Push.Request.{
  Texts, get, get_method, json_type, full_query, get_url, target_url, build_request,
  send_to_single_channel,
}
use esp32c3_sms_gateway.Push.Task.{
  PushMsg, Target, queued_texts, push_service_send_with_ack, push_all, push_pass,
}

-- The target is enabled, and its request is made and succeeds.
abbrev pub IsReached : Texts → Target → Type 0
IsReached texts t =
    (t.channel.enabled ≡ true) × (send_to_single_channel t.http t.channel texts t.net ≡ ok true)

-- Some target is reached.
abbrev pub IsDelivered : Texts → List Target → Type 0
IsDelivered texts [] = ⊥
IsDelivered texts (t ∷ ts) = IsReached texts t ⊎ IsDelivered texts ts

-- No read outside an array and no overlapping copy for any target.
abbrev pub AllAnswer : Texts → List Target → Type 0
AllAnswer texts =
    All (λ t. (sent : Bool) × (send_to_single_channel t.http t.channel texts t.net ≡ ok sent))

-- The loop ends in success exactly if there was one before, or a target is reached.
abbrev AllPushed : Texts → List Target → Bool → Type 0
AllPushed texts ts any =
    ((push_all ts texts any ≡ ok true) × ((any ≡ true) ⊎ IsDelivered texts ts))
    ⊎ ((push_all ts texts any ≡ ok false) × (any ≡ false) × (IsDelivered texts ts → ⊥))

push_all_disabled :
    (texts : Texts) (t : Target) (ts : List Target) (any : Bool)
    → t.channel.enabled ≡ false
    → push_all (t ∷ ts) texts any ≡ push_all ts texts any
unfolding push_all
push_all_disabled texts t ts any off = ground (arith, off)

push_all_enabled :
    (texts : Texts) (t : Target) (ts : List Target) (any sent : Bool)
    → t.channel.enabled ≡ true
    → send_to_single_channel t.http t.channel texts t.net ≡ ok sent
    → push_all (t ∷ ts) texts any ≡ push_all ts texts (sent || any)
unfolding push_all
push_all_enabled texts t ts any sent on e = ground (arith, on, e)

push_all-AllPushed :
    (texts : Texts) (ts : List Target) (any : Bool) → AllAnswer texts ts → AllPushed texts ts any
unfolding push_all
push_all-AllPushed texts [] true h = inl (refl, inl refl)
push_all-AllPushed texts [] false h = inr (refl, refl, λ d. d)
push_all-AllPushed texts (t ∷ ts) any ((sent, e), h) =
    step sent e (Bool-cases t.channel.enabled) (push_all-AllPushed texts ts any h)
      (push_all-AllPushed texts ts true h)
  where
    step :
        (sent : Bool)
        → send_to_single_channel t.http t.channel texts t.net ≡ ok sent
        → (t.channel.enabled ≡ true) ⊎ (t.channel.enabled ≡ false)
        → AllPushed texts ts any
        → AllPushed texts ts true
        → AllPushed texts (t ∷ ts) any
    step sent e (inr off) (inl (r, inl before)) k =
        inl (push_all_disabled texts t ts any off ∙ r, inl before)
    step sent e (inr off) (inl (r, inr d)) k =
        inl (push_all_disabled texts t ts any off ∙ r, inr (inr d))
    step sent e (inr off) (inr (r, before, not_yet)) k = inr (
      push_all_disabled texts t ts any off ∙ r,
      before,
      λ d. elim d [ inl reached ↦ absurd (off_on off reached.0) | inr later ↦ not_yet later ],
    )
      where
        off_on : t.channel.enabled ≡ false → t.channel.enabled ≡ true → ⊥
        off_on a b = cc
    step true e (inl on) g (inl (r, k)) =
        inl (push_all_enabled texts t ts any true on e ∙ r, inr (inl (on, e)))
    step true e (inl on) g (inr (r, before, not_yet)) = absurd (impossible before)
      where
        impossible : true ≡ false → ⊥
        impossible a = cc
    step false e (inl on) (inl (r, inl before)) k =
        inl (push_all_enabled texts t ts any false on e ∙ r, inl before)
    step false e (inl on) (inl (r, inr d)) k =
        inl (push_all_enabled texts t ts any false on e ∙ r, inr (inr d))
    step false e (inl on) (inr (r, before, not_yet)) k = inr (
      push_all_enabled texts t ts any false on e ∙ r,
      before,
      λ d. elim d [ inl reached ↦ absurd (both e reached.1) | inr later ↦ not_yet later ],
    )
      where
        both :
            send_to_single_channel t.http t.channel texts t.net ≡ ok false
            → send_to_single_channel t.http t.channel texts t.net ≡ ok true
            → ⊥
        both a b = cc

emptied : (is : List ℕ) → (if ltb 0 (length is) then ok is else ok []) ≡ ok is
emptied [] = refl
emptied (i ∷ is) = ground arith

-- Where every target answers, a pass deletes all stored messages of the item if the request to some
-- enabled target was made and succeeded, whatever part of the text that request carried, and none of
-- them if there was no such target.
pub push_pass_deletes :
    (ts : List Target) (msg : PushMsg)
    → AllAnswer msg.texts ts
    → ((push_pass ts msg ≡ ok msg.sms_indexes) × IsDelivered msg.texts ts)
      ⊎ ((push_pass ts msg ≡ ok []) × (IsDelivered msg.texts ts → ⊥))
unfolding push_pass
push_pass_deletes ts msg h = elim (push_all-AllPushed msg.texts ts false h) [
  | inl (r, inl before) ↦ absurd (impossible before)
  | inl (r, inr d) ↦ inl (rw (r, push_pass) (emptied msg.sms_indexes), d)
  | inr (r, before, not_yet) ↦ inr (rw (r, push_pass) refl, not_yet)
]
  where
    impossible : false ≡ true → ⊥
    impossible a = cc

-- A text of more than 511 bytes loses what is behind them when it is queued, and its stored messages
-- (at most ten) are all deleted once a target takes the rest.
pub push_service_send_with_ack-long :
    (sender message timestamp : List ℕ) (indexes : List ℕ) (ts : List Target)
    → c_str message ≡ message
    → 511 < length message
    → length indexes ≤ 10
    → AllAnswer (queued_texts (some sender) (some message) (some timestamp)) ts
    → IsDelivered (queued_texts (some sender) (some message) (some timestamp)) ts
    → (msg : PushMsg) × (push_service_send_with_ack true
          (some sender)
          (some message)
          (some timestamp)
          indexes
        ≡ some msg)
      × (msg.texts.message ≡ take 511 message)
      × (msg.texts.message ≢ message)
      × (push_pass ts msg ≡ ok indexes)
unfolding push_service_send_with_ack queued_texts copy_str
push_service_send_with_ack-long sender message timestamp indexes ts text long ten answer delivered =
    let msg : PushMsg = record {
      texts = queued_texts (some sender) (some message) (some timestamp);
      sms_indexes = take 10 indexes;
    } in
    (
      msg,
      refl,
      ap (take 511) text,
      (λ same.
          omega
            (arith, long, ap length same, ap length (ap (take 511) text), length-take 511 message)),
      elim (push_pass_deletes ts msg answer) [
        | inl (deleted, d) ↦ deleted ∙ ap ok (take_all 10 indexes ten)
        | inr (kept, missed) ↦ absurd (missed delivered)
      ],
    )

-- A GET channel whose address with the texts has no room in its array requests the bare address,
-- and where that succeeds the stored messages are deleted although nothing of them was sent.
pub push_pass_lost :
    (t : Target) (msg : PushMsg)
    → t.channel.enabled ≡ true
    → t.channel.kind ≡ get
    → length msg.texts.message ≤ 2000
    → 1536 ≤ length (full_query (target_url t.channel) msg.texts)
    → t.http (record {
      url = target_url t.channel;
      method = get_method;
      payload = [];
      content_type = json_type;
    })
      ≡ true
    → push_pass (t ∷ []) msg ≡ ok msg.sms_indexes
unfolding push_pass push_all send_to_single_channel build_request get_url full_query target_url
push_pass_lost t msg on kind short long reached =
    let not_short : ltb 2000 (length msg.texts.message) ≡ false = ground (arith, short) in
    let no_room : ltb (length (full_query (target_url t.channel) msg.texts)) 1536 ≡ false =
      ground (arith, long) in
    rw (on, kind, not_short, no_room, reached) (emptied msg.sms_indexes)
