-- ===== src/Messages/Supported.antt =====
-- android_keymaster_messages.h: the requests and responses of Keymaster 1 that list what is supported.
pub mod ByAlgorithm
pub mod ByPurpose
pub mod Response
mod Kinds
