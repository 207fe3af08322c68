-- ===== src/Messages/Version.antt =====
-- android_keymaster_messages.h: message versions and their negotiation.
pub mod GetVersion2
pub mod MessageVersion
