-- ===== src/Messages/Hmac.antt =====
-- android_keymaster_messages.h: the shared HMAC key.
pub mod Params
pub mod Compute
