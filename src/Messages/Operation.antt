-- ===== src/Messages/Operation.antt =====
-- android_keymaster_messages.h: messages about an operation in progress.
pub mod Abort
