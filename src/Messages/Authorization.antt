-- ===== src/Messages/Authorization.antt =====
-- android_keymaster_messages.h: the messages by which one keymaster verifies authorizations for another.
pub mod Request
pub mod Response
