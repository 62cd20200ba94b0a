-- ===== src/Modem.antt =====
-- components/modem_driver/modem_driver.c: the lines that come from the modem, the handlers of its
-- notifications, and what is read of its answers. The UART, the locks and the event group of
-- ESP-IDF are left out: the bytes received and the answers are arguments.
pub mod Dialogue
pub mod Lines
pub mod Handlers
pub mod Answers
mod Examples
