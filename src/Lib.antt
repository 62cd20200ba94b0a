-- ===== src/Lib.antt =====
-- A verification library for the firmware of the esp32c3 SMS gateway: a modem delivers SMS
-- messages, the firmware decodes them, joins the parts of long ones and hands them to a push
-- service; it also manages the profiles of an eUICC and runs tasks at set times.
--
-- How the parts interact. The modem driver raises an event for a notification;
-- `modem_sms_urc_handler` turns it into an event of the queue; `sms_processor_task` takes an event,
-- reads a stored message from the modem, decodes it with `pdu_decode`, drops a sender on the black
-- list, puts a part of a long message in its buffer, and calls `push_service_send_with_ack`; after
-- an event it forwards the long messages that wait too long. The push service takes a message from
-- its queue, makes one HTTP request for each channel that is enabled, and deletes the stored messages
-- once a channel took the text. The log service sends lines to a syslog server. The eSIM manager
-- codes requests to the card and reads its answers as TLV items.
--
-- Files and code. Paths are from the repository's root.
--   Prelude and below: shared names, lists and bits, `esp_err_t` results with out-of-bounds
--     accesses (`fault`) and loops out of fuel (`stuck`) as values of their own, C strings as byte
--     lists without the terminator, the hexadecimal text of bytes.
--   Pdu and below: components/sms_processor/pdu_decoder.c. Hex is `hex_string_to_bytes`, Address is
--     `parse_phone_number`, Timestamp is `parse_timestamp`, Text is `ucs2_to_utf8` and
--     `gsm7bit_decode`, Decode is `pdu_decode` with its encoding switch and user data header.
--   Sms and below: components/sms_processor/sms_processor.c. Phone is `normalize_phone` and
--     `phone_equals`; Blacklist is `sms_processor_is_admin_phone` and
--     `sms_processor_is_blacklisted`; Concat is the buffer `concat_buffer` of five `concat_sms_t`,
--     `init_concat_buffer`, `find_or_create_concat_slot` and the task's branch for a part; Task is
--     the loop of `sms_processor_task`, the event half of a pass and its time-out sweep; Urc is
--     `modem_sms_urc_handler`, `sms_processor_enqueue_pdu` and `sms_processor_retry_failed_pushes`.
--     Received puts the modem driver's loop, the handler and the task together; LongMessages applies
--     a theorem to fragments.
--   Esim and below: components/esim_manager/esim_manager.c. Tlv is `read_tlv`, `find_child_tag` and
--     `append_tlv`; Bcd is `iccid_to_bcd` and `bcd_to_iccid`; Profile is
--     `build_profile_identifier` and the requests of `send_profile_apdu_flavor`; Channel is
--     `open_channel` and `close_channel`; Apdu is `transmit_apdu`; Es10x is `es10x_command`;
--     Operation is `profile_operation` with the answers it reads; Cards is the list of profiles, the
--     EID and `esim_manager_switch_profile`; Dialogues applies theorems to dialogues with a card.
--   Cron and below: components/cron_tasker/cron_tasker.c, `calculate_next_run_epoch` and the body of
--     the loop of `cron_worker_task` for one task.
--   Call and below: components/call_processor/call_processor.c, `handle_call_ringing`.
--   Modem and below: components/modem_driver/modem_driver.c. Dialogue is the commands and answers of
--     `modem_send_at_command` as its callers see them; Lines is the loop of `modem_event_task` and
--     `process_urc_line`; Handlers is the table `urc_handlers`; Answers is what the driver reads of
--     the answers to AT+CMGR, AT+CMGL, AT+CSCA and of a ping report.
--   Push and below: components/push_service/push_service.c. Encode is `url_encode` and `json_escape`,
--     Template is `str_replace_inplace`, Request is `send_to_single_channel`, Task is the queue's
--     texts and one message's pass in `push_service_task`, Network is `get_network_info_cached`.
--   Http and below: components/common_utils/http_utils.c, `http_util_request`.
--   Log and below: components/log_service/log_service.c. Line is the syslog line, Resolver is
--     `log_service_resolve_server` and `log_service_send_udp`, Output is `log_service_voutput` and
--     `syslog_worker_task`.
--   Each Examples file applies theorems to concrete inputs.
--
-- State is passed explicitly: an operation on the reassembly buffer takes the list of slots and
-- returns the new one; the calls of other components are returned as a list, in their order. The
-- tick counter and the answer of the modem are arguments.
--
-- Bounds and fuel. Loops over an array recurse on the array or on a count that the code computes.
-- The loops over the user data header (Pdu.Decode), over TLV items (Esim) and over GET RESPONSE have
-- fuel. Fuel for TLV items is the number of bytes and one more: an item has two bytes at least, so
-- that only a length that wraps around uses it up. The loop over GET RESPONSE is bounded by nothing in
-- the code: `es10x_command` and what calls it take the number of rounds for which it is followed. Tick
-- counts and `size_t` sums wrap around at 2^32 where the code lets them; an `int` index stands by its
-- 32-bit pattern.
--
-- Not modelled: logging, tasks, queues and sockets of ESP-IDF and FreeRTOS, UART traffic, memory
-- allocation that fails, the third-party libraries under managed_components, and so far the web
-- server, the configuration, the GNSS sentences and the sending of messages in the modem driver, and
-- main/main.c.
pub mod Prelude
pub mod Pdu
pub mod Sms
pub mod Esim
pub mod Cron
pub mod Call
pub mod Push
pub mod Modem
pub mod Http
pub mod Log
