-- ===== src/Rdm.antt =====
-- The RDM responder (ANSI E1.20): RDMEnums.h, RDMSender and RDMHandler.
pub mod Enums
pub mod Packet
pub mod Sender
pub mod Reply
pub mod Answer
pub mod Handlers
