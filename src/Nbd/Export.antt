-- ===== src/Nbd/Export.antt =====
-- What src/platform/nbd_protocol.c does for a client, against the replies that the protocol wants
-- for an image.
pub mod Moves
pub mod Reading
pub mod Replies
pub mod Answers
pub mod Conversation
pub mod Ending
pub mod Negotiation
pub mod Service
