-- ===== src/Push.antt =====
-- components/push_service/push_service.c: the encodings, the request of a channel, and the task
-- that pushes a message over the channels and cleans up the stored messages behind it.
pub mod Encode
pub mod Template
pub mod Request
pub mod Task
pub mod Network
mod Examples
