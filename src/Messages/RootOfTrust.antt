-- ===== src/Messages/RootOfTrust.antt =====
-- android_keymaster_messages.h: the root of trust.
pub mod Request
pub mod Response
