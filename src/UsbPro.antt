-- ===== src/UsbPro.antt =====
-- The USB Pro framing: a start byte, a label, the size in two bytes with the low one first, the
-- data, an end byte. The children model UsbProSender and UsbProReceiver.
pub mod Labels
pub mod Frame
pub mod Sender
pub mod Receiver
