-- ===== src/Tokens.antt =====
-- The tokens and sharing parameters of android_keymaster_messages.h that are made by moving another
-- one. Their Serialize and Deserialize are declared only.
pub mod Ownership
mod Tests
use device_xiaomi_dash_twrp.Prelude.{ℕ, ◌≡◌, Bool, false, Option, none, some, List, []}
use device_xiaomi_dash_twrp.Blob.{Blob, Freed, null_blob, move_assign}

-- HmacSharingParameters; `nonce` is an array of 32 bytes.
pub record HmacSharingParameters : Type 0 where
  pub seed : Blob
  pub nonce : List ℕ

-- HmacSharingParametersArray; a null `params_array` is `none`.
pub record HmacSharingParametersArray : Type 0 where
  pub params_array : Option (List HmacSharingParameters)
  pub num_params : ℕ

pub record HardwareAuthToken : Type 0 where
  pub challenge : ℕ
  pub user_id : ℕ
  pub authenticator_id : ℕ
  pub authenticator_type : ℕ
  pub timestamp : ℕ
  pub mac : Blob

-- `S` is AuthorizationSet.
pub record VerificationToken (S : Type 0) : Type 0 where
  pub challenge : ℕ
  pub timestamp : ℕ
  pub parameters_verified : S
  pub security_level : ℕ
  pub mac : Blob

-- `x = std::move(other.x)` of a blob that is still empty: the new one and the other.
abbrev pub moved : Blob → Blob × Blob
moved other = let (freed, this, rhs) = move_assign false other null_blob in (this, rhs)

-- Each constructor gives the new object and what is left of `other`.
pub move_sharing_parameters : HmacSharingParameters → HmacSharingParameters × HmacSharingParameters
move_sharing_parameters other = (
  record { seed = (moved other.seed).0; nonce = other.nonce },
  record other { seed = (moved other.seed).1 },
)

pub move_hardware_auth_token : HardwareAuthToken → HardwareAuthToken × HardwareAuthToken
move_hardware_auth_token other = (
  record {
    challenge = other.challenge;
    user_id = other.user_id;
    authenticator_id = other.authenticator_id;
    authenticator_type = other.authenticator_type;
    timestamp = other.timestamp;
    mac = (moved other.mac).0;
  },
  record other { mac = (moved other.mac).1 },
)

-- `move_set` is the move assignment of AuthorizationSet to an empty set: that set and the other.
pub move_verification_token :
    {S : Type 0} → (S → S × S) → VerificationToken S → VerificationToken S × VerificationToken S
move_verification_token move_set other = (
  record {
    challenge = other.challenge;
    timestamp = other.timestamp;
    parameters_verified = (move_set other.parameters_verified).0;
    security_level = other.security_level;
    mac = (moved other.mac).0;
  },
  record other {
    parameters_verified = (move_set other.parameters_verified).1;
    mac = (moved other.mac).1;
  },
)

-- The move constructor of HmacSharingParametersArray deletes its own params_array first, which no
-- initializer has set: `found` is what it happens to hold. Also what is deleted.
pub move_sharing_parameters_array :
    (found : Option (List HmacSharingParameters))
    → HmacSharingParametersArray
    → Option (List HmacSharingParameters) × HmacSharingParametersArray × HmacSharingParametersArray
move_sharing_parameters_array found other =
    (found, other, record { params_array = none; num_params = 0 })
