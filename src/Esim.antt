-- ===== src/Esim.antt =====
-- components/esim_manager/esim_manager.c: the coding of eUICC requests and answers.
pub mod Tlv
pub mod Channel
pub mod Apdu
pub mod Es10x
pub mod Operation
pub mod Cards
pub mod Bcd
pub mod Profile
mod Examples
mod Dialogues
