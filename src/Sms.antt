-- ===== src/Sms.antt =====
-- components/sms_processor/sms_processor.c: phone numbers and the black list, the reassembly of
-- long messages, the event handlers and the task that serves them.
pub mod Phone
pub mod Blacklist
pub mod Concat
pub mod Task
pub mod Urc
pub mod Received
mod Examples
mod LongMessages
