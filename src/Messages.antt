-- ===== src/Messages.antt =====
-- prebuilt/a15-aidl/include/keymaster/keymaster/android_keymaster_messages.h: the messages between
-- a client and the keymaster, and how each is written to and read from a buffer.
pub mod Attestation
pub mod Authorization
pub mod Command
pub mod Configure
pub mod Hmac
pub mod DeviceLocked
pub mod Empty
pub mod HwInfo
pub mod RoundTrip
mod Tests
pub mod Operation
pub mod RkpKey
pub mod RootOfTrust
pub mod Supported
pub mod Timestamp
pub mod Version
