-- ===== src/Messages/Tests.antt =====
-- The theorems on messages at concrete messages, with the reference functions, and runs of the
-- code. AuthorizationSet, HardwareAuthToken, VerificationToken and Buffer are blobs here.
use device_xiaomi_dash_twrp.Prelude.{
  ℕ, ◌+◌, ◌<◌, ◌≡◌, refl, true, false, some, none, List, [], ◌∷◌, length, arith,
}
use device_xiaomi_dash_twrp.Memory.{Mem, success, failure}
use device_xiaomi_dash_twrp.Memory.Bytes.{le_bytes}
use device_xiaomi_dash_twrp.Memory.{write_bytes}
use device_xiaomi_dash_twrp.Memory.Laws.{Holds-write_bytes}
use device_xiaomi_dash_twrp.Serializable.Reference.{reference}
use device_xiaomi_dash_twrp.Blob.{Blob}
use device_xiaomi_dash_twrp.Blob.Codec.{blob, BlobFits}
use device_xiaomi_dash_twrp.Messages.Configure.OsVersion.{ConfigureRequest}
use device_xiaomi_dash_twrp.Messages.Configure.VerifiedBoot.{ConfigureVerifiedBootInfoRequest}
use device_xiaomi_dash_twrp.Messages.HwInfo
use device_xiaomi_dash_twrp.Messages.HwInfo.{GetHwInfoResponse}
use device_xiaomi_dash_twrp.Messages.Timestamp.Token.{TimestampToken}
use device_xiaomi_dash_twrp.Messages.Authorization.Request
use device_xiaomi_dash_twrp.Messages.Authorization.Request.{VerifyAuthorizationRequest}
use device_xiaomi_dash_twrp.Messages.Attestation.IdsKm3
use device_xiaomi_dash_twrp.Messages.Attestation.IdsKm3.{SetAttestationIdsKm3Request}
use device_xiaomi_dash_twrp.Messages.DeviceLocked
use device_xiaomi_dash_twrp.Messages.DeviceLocked.{DeviceLockedRequest, device_locked_understates}
use device_xiaomi_dash_twrp.Messages.Supported.Response.{
  SupportedResponse, km_ok, other_error, non_error_serialize, non_error_deserialize,
  non_error_serialized_size, supported_round_trip, supported_truncated,
}
use device_xiaomi_dash_twrp.Serializable.Contract.{Serializable}
use device_xiaomi_dash_twrp.Messages.RoundTrip.{
  hw_info_round_trip, verify_authorization_round_trip, attestation_ids_round_trip,
}

abbrev blank : Mem
blank = λ a. 0

abbrev os : ConfigureRequest
os = record { os_version = 160000; os_patchlevel = 202511 }

abbrev old_os : ConfigureRequest
old_os = record { os_version = 0; os_patchlevel = 0 }

abbrev boot : ConfigureVerifiedBootInfoRequest
boot = record {
  boot_state = 103 ∷ 114 ∷ [];
  bootloader_state = 108 ∷ [];
  vbmeta_digest = 7 ∷ 8 ∷ 9 ∷ [];
}

-- The object that is read into already holds a boot state.
abbrev used_boot : ConfigureVerifiedBootInfoRequest
used_boot = record { boot_state = 120 ∷ []; bootloader_state = []; vbmeta_digest = [] }

abbrev info : GetHwInfoResponse
info = record {
  version = 3;
  rpc_author_name = 71 ∷ 111 ∷ [];
  supported_eek_curve = 2;
  unique_id = 65 ∷ [];
  supported_num_keys_in_csr = 20;
}

abbrev blank_info : GetHwInfoResponse
blank_info = record {
  version = 0;
  rpc_author_name = [];
  supported_eek_curve = 0;
  unique_id = [];
  supported_num_keys_in_csr = 0;
}

hw_info_example :
    ((HwInfo.serialize reference info blank 8 100).1 ≡ 8 + HwInfo.serialized_size reference info)
    × (HwInfo.deserialize reference (HwInfo.serialize reference info blank 8 100).0 8 100 blank_info
        ≡ success (8 + HwInfo.serialized_size reference info) info)
unfolding le_bytes
hw_info_example =
    hw_info_round_trip reference info
      (record {
        version_fits = omega arith;
        rpc_author_name_fits = omega arith;
        supported_eek_curve_fits = omega arith;
        unique_id_fits = omega arith;
        supported_num_keys_in_csr_fits = omega arith;
      })
      blank 8 100 blank_info (omega arith) (omega arith)

-- There are five bytes of room for 23.
abbrev blob_of : List ℕ → Blob
blob_of bs = record { data_ptr = some bs; data_length = length bs }

abbrev mac : Blob
mac = blob_of (1 ∷ 2 ∷ 3 ∷ [])

mac_fits : BlobFits reference mac
mac_fits = record { has_memory = refl; agrees = refl; short = omega arith; available = refl }

abbrev no_blob : Blob
no_blob = record { data_ptr = none; data_length = 0 }

abbrev token : TimestampToken
token = record { challenge = 42; timestamp = 1000000; security_level = 1; mac = mac }

abbrev blank_token : TimestampToken
blank_token = record { challenge = 0; timestamp = 0; security_level = 0; mac = no_blob }

abbrev blob_codec : Serializable Blob
blob_codec = blob reference

abbrev request : VerifyAuthorizationRequest Blob Blob
request = record { challenge = 5; parameters_to_verify = mac; auth_token = blob_of (9 ∷ []) }

abbrev blank_request : VerifyAuthorizationRequest Blob Blob
blank_request = record { challenge = 0; parameters_to_verify = no_blob; auth_token = no_blob }

verify_authorization_example :
    ((Request.serialize reference blob_codec blob_codec request blank 0 32).1
      ≡ 0 + Request.serialized_size reference blob_codec blob_codec request)
    × (Request.deserialize reference blob_codec blob_codec
          (Request.serialize reference blob_codec blob_codec request blank 0 32).0
          0
          32
          blank_request
        ≡ success (0 + Request.serialized_size reference blob_codec blob_codec request) request)
unfolding le_bytes
verify_authorization_example =
    verify_authorization_round_trip reference blob_codec blob_codec request
      (record {
        challenge_fits = omega arith;
        parameters_to_verify_fits = mac_fits;
        auth_token_fits = record {
          has_memory = refl;
          agrees = refl;
          short = omega arith;
          available = refl;
        };
      })
      blank 0 32 blank_request (omega arith) (omega arith)

abbrev ids_of : Blob → SetAttestationIdsKm3Request Blob
ids_of b = record {
  base = record {
    brand = b;
    device = b;
    product = b;
    serial = b;
    imei = b;
    meid = b;
    manufacturer = b;
    model = b;
  };
  second_imei = b;
}

attestation_ids_example :
    ((IdsKm3.serialize reference blob_codec (ids_of mac) blank 0 63).1
      ≡ 0 + IdsKm3.serialized_size reference blob_codec (ids_of mac))
    × (IdsKm3.deserialize reference blob_codec
          (IdsKm3.serialize reference blob_codec (ids_of mac) blank 0 63).0
          0
          63
          (ids_of no_blob)
        ≡ success (0 + IdsKm3.serialized_size reference blob_codec (ids_of mac)) (ids_of mac))
unfolding le_bytes
attestation_ids_example =
    attestation_ids_round_trip reference blob_codec (ids_of mac)
      (record {
        base_fits = record {
          brand_fits = mac_fits;
          device_fits = mac_fits;
          product_fits = mac_fits;
          serial_fits = mac_fits;
          imei_fits = mac_fits;
          meid_fits = mac_fits;
          manufacturer_fits = mac_fits;
          model_fits = mac_fits;
        };
        second_imei_fits = mac_fits;
      })
      blank 0 63 (ids_of no_blob) (omega arith) (omega arith)

abbrev locked : DeviceLockedRequest Blob
locked = record { password_only = true; token = mac }

abbrev unlocked : DeviceLockedRequest Blob
unlocked = record { password_only = false; token = no_blob }

-- Eight bytes are written where SerializedSize says one.
device_locked_example :
    (DeviceLocked.deserialize blob_codec
        (DeviceLocked.serialize blob_codec locked blank 0 8).0
        0
        8
        unlocked
      ≡ success
          (0 + DeviceLocked.serialized_size blob_codec locked + blob_codec.serialized_size mac)
          locked)
    × ((DeviceLocked.serialize blob_codec locked blank 0 8).1
        ≡ 0 + DeviceLocked.serialized_size blob_codec locked + blob_codec.serialized_size mac)
    × (0 + DeviceLocked.serialized_size blob_codec locked
        < (DeviceLocked.serialize blob_codec locked blank 0 8).1)
unfolding le_bytes
device_locked_example =
    device_locked_understates blob_codec locked mac_fits (omega arith) blank 0 8 unlocked
      (omega arith) (omega arith)

abbrev digests : SupportedResponse
digests = record { error = km_ok; results = some (0 ∷ 4 ∷ []); results_length = 2 }

abbrev fresh_response : SupportedResponse
fresh_response = record { error = other_error; results = none; results_length = 0 }

supported_example :
    ((non_error_serialize reference digests blank 0 12).1 ≡ 0 + non_error_serialized_size digests)
    × (non_error_deserialize reference
          (non_error_serialize reference digests blank 0 12).0
          0
          12
          fresh_response
        ≡ success (0 + non_error_serialized_size digests) (record digests { error = other_error }))
supported_example =
    supported_round_trip reference digests
      (record {
        has_results = refl;
        agrees = refl;
        values_fit = omega arith;
        short = omega arith;
        available = refl;
      })
      blank 0 12 fresh_response (omega arith) (omega arith)

-- The buffer announces three values and holds one.
abbrev truncated : Mem
truncated = write_bytes blank 0 (le_bytes 4 3)

supported_truncated_example :
    non_error_deserialize reference truncated 0 8 fresh_response
    ≡ failure 4 (record fresh_response { results = none; results_length = 3 })
supported_truncated_example =
    supported_truncated reference 3 (omega arith) truncated 0 8 fresh_response
      (Holds-write_bytes blank 0 (le_bytes 4 3)) (omega arith) (omega arith) (omega arith)
