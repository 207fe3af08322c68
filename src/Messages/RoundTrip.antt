-- ===== src/Messages/RoundTrip.antt =====
-- android_keymaster_messages.h: Serialize against Deserialize of a message.
use device_xiaomi_dash_twrp.Prelude.{ℕ, ◌+◌, ◌≤◌, ◌<◌, ◌≡◌, ◌++◌, length}
use device_xiaomi_dash_twrp.Memory.{Mem, success, pointer_mod}
use device_xiaomi_dash_twrp.Serializable.Interface.{External}
use device_xiaomi_dash_twrp.Serializable.Contract
use device_xiaomi_dash_twrp.Serializable.Contract.{Serializable}
use device_xiaomi_dash_twrp.Messages.RkpKey
use device_xiaomi_dash_twrp.Messages.RkpKey.{GenerateRkpKeyRequest}
use device_xiaomi_dash_twrp.Messages.Configure.OsVersion
use device_xiaomi_dash_twrp.Messages.Configure.OsVersion.{ConfigureRequest}
use device_xiaomi_dash_twrp.Messages.Configure.VerifiedBoot
use device_xiaomi_dash_twrp.Messages.Configure.VerifiedBoot.{ConfigureVerifiedBootInfoRequest}
use device_xiaomi_dash_twrp.Messages.HwInfo
use device_xiaomi_dash_twrp.Messages.HwInfo.{GetHwInfoResponse}
use device_xiaomi_dash_twrp.Messages.Timestamp.Response
use device_xiaomi_dash_twrp.Messages.Timestamp.Response.{GenerateTimestampTokenResponse}
use device_xiaomi_dash_twrp.Messages.Authorization.Request
use device_xiaomi_dash_twrp.Messages.Authorization.Request.{VerifyAuthorizationRequest}
use device_xiaomi_dash_twrp.Messages.Attestation.IdsKm3
use device_xiaomi_dash_twrp.Messages.Attestation.IdsKm3.{SetAttestationIdsKm3Request}

-- A ConfigureRequest of 32-bit values, written where there is room for it, advances the pointer by
-- SerializedSize and is read back whole.
pub configure_round_trip :
    (x : External) (r : ConfigureRequest)
    → OsVersion.Fits x r
    → (m : Mem) (p end : ℕ) (old : ConfigureRequest) → p + length (OsVersion.bytes x r) ≤ end
    → end < pointer_mod
    → ((OsVersion.serialize x r m p end).1 ≡ p + OsVersion.serialized_size x r)
      × (OsVersion.deserialize x (OsVersion.serialize x r m p end).0 p end old
          ≡ success (p + OsVersion.serialized_size x r) r)
configure_round_trip x = Contract.round_trip (OsVersion.codec x)

-- ConfigureVerifiedBootInfoRequest, with collections shorter than 2^32 and a bounds check that
-- accepts an exact fit: reading appends each collection to what the object held before.
pub verified_boot_round_trip :
    (x : External) (r : ConfigureVerifiedBootInfoRequest)
    → VerifiedBoot.Fits x r
    → (m : Mem) (p end : ℕ) (old : ConfigureVerifiedBootInfoRequest)
    → p + length (VerifiedBoot.bytes x r) ≤ end
    → end < pointer_mod
    → ((VerifiedBoot.serialize x r m p end).1 ≡ p + VerifiedBoot.serialized_size x r)
      × (VerifiedBoot.deserialize x (VerifiedBoot.serialize x r m p end).0 p end old
          ≡ success (p + VerifiedBoot.serialized_size x r) (record {
            boot_state = old.boot_state ++ r.boot_state;
            bootloader_state = old.bootloader_state ++ r.bootloader_state;
            vbmeta_digest = old.vbmeta_digest ++ r.vbmeta_digest;
          }))
verified_boot_round_trip x = Contract.round_trip (VerifiedBoot.codec x)

-- A GetHwInfoResponse of 32-bit integers and texts shorter than 2^32, written where there is room for
-- it, advances the pointer by SerializedSize and is read back: the integers are replaced, the two texts
-- appended to those that the reading object held.
pub hw_info_round_trip :
    (x : External) (r : GetHwInfoResponse)
    → HwInfo.Fits x r
    → (m : Mem) (p end : ℕ) (old : GetHwInfoResponse) → p + length (HwInfo.bytes x r) ≤ end
    → end < pointer_mod
    → ((HwInfo.serialize x r m p end).1 ≡ p + HwInfo.serialized_size x r)
      × (HwInfo.deserialize x (HwInfo.serialize x r m p end).0 p end old
          ≡ success (p + HwInfo.serialized_size x r) (record r {
            rpc_author_name = old.rpc_author_name ++ r.rpc_author_name;
            unique_id = old.unique_id ++ r.unique_id;
          }))
hw_info_round_trip x = Contract.round_trip (HwInfo.codec x)

-- A timestamp token response whose integers fit and whose MAC has memory of its size, below 2^32
-- and available to the reader, is read back whole.
pub timestamp_round_trip :
    (x : External) (r : GenerateTimestampTokenResponse)
    → Response.Fits x r
    → (m : Mem) (p end : ℕ) (old : GenerateTimestampTokenResponse)
    → p + length (Response.bytes x r) ≤ end
    → end < pointer_mod
    → ((Response.serialize x r m p end).1 ≡ p + Response.serialized_size x r)
      × (Response.deserialize x (Response.serialize x r m p end).0 p end old
          ≡ success (p + Response.serialized_size x r) r)
timestamp_round_trip x = Contract.round_trip (Response.codec x)

-- A GenerateRkpKeyRequest, whose flag is one byte, is read back whole.
pub generate_rkp_key_round_trip :
    (x : External) (r : GenerateRkpKeyRequest)
    → RkpKey.Fits x r
    → (m : Mem) (p end : ℕ) (old : GenerateRkpKeyRequest) → p + length (RkpKey.bytes x r) ≤ end
    → end < pointer_mod
    → ((RkpKey.serialize x r m p end).1 ≡ p + RkpKey.serialized_size x r)
      × (RkpKey.deserialize x (RkpKey.serialize x r m p end).0 p end old
          ≡ success (p + RkpKey.serialized_size x r) r)
generate_rkp_key_round_trip x = Contract.round_trip (RkpKey.codec x)

-- VerifyAuthorizationRequest over any AuthorizationSet and HardwareAuthToken that keep the contract
-- of Serializable: a request that fits is read back, each member as its own class reads it.
pub verify_authorization_round_trip :
    {AuthorizationSet HardwareAuthToken : Type 0} (x : External)
    (set : Serializable AuthorizationSet) (auth : Serializable HardwareAuthToken)
    (r : VerifyAuthorizationRequest AuthorizationSet HardwareAuthToken)
    → Request.Fits x set auth r
    → (m : Mem) (p end : ℕ) (old : VerifyAuthorizationRequest AuthorizationSet HardwareAuthToken)
    → p + length (Request.bytes x set auth r) ≤ end
    → end < pointer_mod
    → ((Request.serialize x set auth r m p end).1 ≡ p + Request.serialized_size x set auth r)
      × (Request.deserialize x set auth (Request.serialize x set auth r m p end).0 p end old
          ≡ success (p + Request.serialized_size x set auth r) (record {
            challenge = r.challenge;
            parameters_to_verify = set.loads r.parameters_to_verify old.parameters_to_verify;
            auth_token = auth.loads r.auth_token old.auth_token;
          }))
verify_authorization_round_trip x set auth = Contract.round_trip (Request.codec x set auth)

-- SetAttestationIdsKM3Request over any Buffer that keeps the contract of Serializable: nine buffers
-- that fit are read back in their order.
pub attestation_ids_round_trip :
    {Buffer : Type 0} (x : External) (buffer : Serializable Buffer)
    (r : SetAttestationIdsKm3Request Buffer)
    → IdsKm3.Fits x buffer r
    → (m : Mem) (p end : ℕ) (old : SetAttestationIdsKm3Request Buffer)
    → p + length (IdsKm3.bytes x buffer r) ≤ end
    → end < pointer_mod
    → ((IdsKm3.serialize x buffer r m p end).1 ≡ p + IdsKm3.serialized_size x buffer r)
      × (IdsKm3.deserialize x buffer (IdsKm3.serialize x buffer r m p end).0 p end old
          ≡ success (p + IdsKm3.serialized_size x buffer r) (IdsKm3.loads x buffer r old))
attestation_ids_round_trip x buffer = Contract.round_trip (IdsKm3.codec x buffer)
