-- ===== src/Operations.antt =====
-- Key of prebuilt/a15-aidl/include/keymaster/keymaster/key.h and Operation of operation.h: the state
-- that the headers keep and change. `S` is AuthorizationSet and `Buffer` the class Buffer; begin,
-- update, finish and abort are declared only.
pub mod Rsa
pub mod Confirmation
mod Tests
use device_xiaomi_dash_twrp.Prelude.{
  ℕ, ◌≡◌, Bool, true, false, ◌&&◌, Option, none, some, List, [], ◌==◌, if◌then◌else◌,
}
use device_xiaomi_dash_twrp.Blob.{Blob, null_blob}

-- Key; `key_factory` is a pointer.
pub record Key (S : Type 0) : Type 0 where
  pub hw_enforced : S
  pub sw_enforced : S
  pub key_material : Blob
  pub key_factory : ℕ
  pub secure_deletion_slot : ℕ

-- Key(AuthorizationSet&& hw_enforced, AuthorizationSet&& sw_enforced, const KeyFactory* key_factory)
pub new_key : {S : Type 0} → S → S → ℕ → Key S
new_key hw sw factory = record {
  hw_enforced = hw;
  sw_enforced = sw;
  key_material = null_blob;
  key_factory = factory;
  secure_deletion_slot = 0;
}

pub set_key_slot : {S : Type 0} → ℕ → Key S → Key S
set_key_slot slot k = record k { secure_deletion_slot = slot }

-- OperationFactory::KeyType and its operator==
pub record KeyType : Type 0 where
  pub algorithm : ℕ
  pub purpose : ℕ

pub key_type_eq : KeyType → KeyType → Bool
key_type_eq a b = a.algorithm == b.algorithm && a.purpose == b.purpose

-- SupportedPaddingModes, SupportedBlockModes and SupportedDigests of a factory that does not
-- override them: no array, and a count of 0.
pub supported_default : Option (List ℕ) × ℕ
supported_default = (none, 0)

-- Operation. key_id_ and operation_handle_ have no initializer: they hold what is found there.
pub record Operation (S Buffer : Type 0) : Type 0 where
  pub operation_handle : ℕ
  pub purpose : ℕ
  pub hw_enforced : S
  pub sw_enforced : S
  pub key_id : ℕ
  pub secure_deletion_slot : ℕ
  pub confirmation_verifier_buffer : Option Buffer

module _ {S Buffer : Type 0} where
  -- Operation(purpose, hw_enforced, sw_enforced)
  pub new_operation : (found_handle found_id : ℕ) → ℕ → S → S → Operation S Buffer
  new_operation found_handle found_id purpose hw sw = record {
    operation_handle = found_handle;
    purpose = purpose;
    hw_enforced = hw;
    sw_enforced = sw;
    key_id = found_id;
    secure_deletion_slot = 0;
    confirmation_verifier_buffer = none;
  }

  -- set_key_id, set_secure_deletion_slot
  pub set_key_id : ℕ → Operation S Buffer → Operation S Buffer
  set_key_id id o = record o { key_id = id }

  pub set_secure_deletion_slot : ℕ → Operation S Buffer → Operation S Buffer
  set_secure_deletion_slot slot o = record o { secure_deletion_slot = slot }

  -- bool create_confirmation_verifier_buffer(); `made` is what `new (std::nothrow) Buffer` gave, of
  -- the confirmation token's tag.
  pub create_confirmation_verifier_buffer :
      Option Buffer → Operation S Buffer → Bool × Operation S Buffer
  create_confirmation_verifier_buffer made o = elim o.confirmation_verifier_buffer [
    | some buffer ↦ (true, o)
    | none ↦ elim made [
      | none ↦ (false, o)
      | some buffer ↦ (true, record o { confirmation_verifier_buffer = some buffer })
    ]
  ]
