-- ===== src/Messages/Timestamp.antt =====
-- android_keymaster_messages.h: timestamp tokens of the secure clock.
pub mod Token
pub mod Request
pub mod Response
