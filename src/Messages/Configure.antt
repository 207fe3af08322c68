-- ===== src/Messages/Configure.antt =====
-- android_keymaster_messages.h: what the device tells the keymaster about its software at boot.
pub mod OsVersion
pub mod VendorPatchlevel
pub mod BootPatchlevel
pub mod VerifiedBoot
