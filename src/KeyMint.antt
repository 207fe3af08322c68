-- ===== src/KeyMint.antt =====
-- prebuilt/a15-aidl/include/keymint-support/keymint_support: the tags and parameters of KeyMint, and
-- the set of parameters.
pub mod Tags
pub mod Parameters
pub mod Lookup
pub mod Sets
pub mod Utils
mod Tests
