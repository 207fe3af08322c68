-- ===== src/Messages/Attestation.antt =====
-- android_keymaster_messages.h: the identifiers that attestation may mention.
pub mod Ids
pub mod IdsKm3
