-- ===== src/Pdu.antt =====
-- components/sms_processor/pdu_decoder.c and its header: an SMS-DELIVER PDU in hexadecimal
-- becomes sender, timestamp, text and the concatenation fields.
pub mod Hex
pub mod Address
pub mod Timestamp
pub mod Text
pub mod Decode
pub mod Samples
mod Examples
