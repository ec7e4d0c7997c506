-- ===== src/Rdm/Handlers.antt =====
-- RDMHandlers.h and RDMHandlers.cpp: the tables, what the handlers share, the GET handlers, the SET
-- handlers and the message handler in the children.
pub mod Tables
pub mod Parts
pub mod Get
pub mod Set
pub mod Message
pub mod ReadBack
pub mod Queue
