-- ===== src/Push/Task.antt =====
-- The queue of push_service.c and the pass of `push_service_task` over one message. FreeRTOS keeps
-- the queue: the senders return the item that they hand to `xQueueSend`.
pub mod Cleanup
use esp32c3_sms_gateway.Prelude.{
  ℕ, ◌-◌, Bool, true, false, ◌&&◌, ◌||◌, Option, none, some, List, [], ◌∷◌, length, take, ltb,
  if◌then◌else◌,
}
use esp32c3_sms_gateway.Prelude.Result.{Result, ok, ◌>>=◌}
use esp32c3_sms_gateway.Prelude.Text.{copy_str}
use esp32c3_sms_gateway.Push.Request.{
  PushChannel, NetInfo, HttpRequest, Texts, send_to_single_channel,
}

-- `push_msg_t`
pub record PushMsg : Type 0 where
  pub texts : Texts
  pub sms_indexes : List ℕ

-- `strncpy` from an argument that may be null into a zeroed array.
abbrev pub copied_text : ℕ → Option (List ℕ) → List ℕ
copied_text size none = []
copied_text size (some s) = copy_str size s

unfoldable pub queued_texts : Option (List ℕ) → Option (List ℕ) → Option (List ℕ) → Texts
queued_texts sender message timestamp = record {
  sender = copied_text 64 sender;
  message = copied_text 512 message;
  timestamp = copied_text 32 timestamp;
}

-- `push_service_send`; `none` is a missing queue.
unfoldable pub push_service_send :
    Bool → Option (List ℕ) → Option (List ℕ) → Option (List ℕ) → Option PushMsg
push_service_send has_queue sender message timestamp =
    if has_queue
    then some (record { texts = queued_texts sender message timestamp; sms_indexes = [] })
    else none

-- `push_service_send_with_ack`, with an empty list for a null array or a count of 0.
unfoldable pub push_service_send_with_ack :
    Bool → Option (List ℕ) → Option (List ℕ) → Option (List ℕ) → List ℕ → Option PushMsg
push_service_send_with_ack has_queue sender message timestamp indexes =
    if has_queue
    then some
        (record { texts = queued_texts sender message timestamp; sms_indexes = take 10 indexes })
    else none

-- A channel with the outcome of a request to it, and what is known of the network at that time.
pub record Target : Type 0 where
  pub channel : PushChannel
  pub http : HttpRequest → Bool
  pub net : NetInfo

-- The loop over the channels; the disabled ones are passed over.
unfoldable pub push_all : List Target → Texts → Bool → Result Bool
push_all [] texts any_success = ok any_success
push_all (t ∷ ts) texts any_success =
    if t.channel.enabled
    then (do
      sent ← send_to_single_channel t.http t.channel texts t.net
      push_all ts texts (sent || any_success))
    else push_all ts texts any_success

-- The pass over a message: the stored messages that it deletes, in their order.
unfoldable pub push_pass : List Target → PushMsg → Result (List ℕ)
push_pass targets msg = do
  any_success ← push_all targets msg.texts false
  if any_success && ltb 0 (length msg.sms_indexes) then ok msg.sms_indexes else ok []
