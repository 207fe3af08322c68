-- ===== src/Messages/Hmac/Compute.antt =====
-- ComputeSharedHmacRequest: HmacSharingParametersArray, whose methods are declared only.
use device_xiaomi_dash_twrp.Prelude.{ℕ, ◌<◌, ◌≡◌, List, length, arith}
use device_xiaomi_dash_twrp.Memory.{Put, Get, into, pointer_mod}
use device_xiaomi_dash_twrp.Memory.Format.{Format, Confined, Format-into, Confined-into}
use device_xiaomi_dash_twrp.Serializable.Interface.{External}
use device_xiaomi_dash_twrp.Serializable.Contract.{Serializable}

pub record ComputeSharedHmacRequest (HmacSharingParametersArray : Type 0) : Type 0 where
  pub params_array : HmacSharingParametersArray

module _ (x : External) {HmacSharingParametersArray : Type 0}
    (hmac_sharing_parameters_array : Serializable HmacSharingParametersArray) where
  pub serialized_size : ComputeSharedHmacRequest HmacSharingParametersArray → ℕ
  serialized_size r = hmac_sharing_parameters_array.serialized_size r.params_array

  pub serialize : ComputeSharedHmacRequest HmacSharingParametersArray → Put
  serialize r = hmac_sharing_parameters_array.serialize r.params_array

  pub deserialize : Get (ComputeSharedHmacRequest HmacSharingParametersArray)
  deserialize =
      into (λ r. r.params_array) (λ r v. record r { params_array = v })
        hmac_sharing_parameters_array.deserialize

  -- The members in the order in which they are written.
  abbrev pub bytes : ComputeSharedHmacRequest HmacSharingParametersArray → List ℕ
  bytes r = hmac_sharing_parameters_array.bytes r.params_array

  -- Every member fits the width at which it is written.
  pub record Fits (r : ComputeSharedHmacRequest HmacSharingParametersArray) : Type 0 where
    pub params_array_fits : hmac_sharing_parameters_array.Fits r.params_array

  -- What reading `r` makes of `old`.
  abbrev pub loads :
      ComputeSharedHmacRequest HmacSharingParametersArray
      → ComputeSharedHmacRequest HmacSharingParametersArray
      → ComputeSharedHmacRequest HmacSharingParametersArray
  loads r old = record {
    params_array = hmac_sharing_parameters_array.loads r.params_array old.params_array;
  }

  pub format :
      (r : ComputeSharedHmacRequest HmacSharingParametersArray)
      → Fits r
      → Format (serialize r) deserialize (bytes r) (loads r)
  unfolding serialize deserialize
  format r f =
      Format-into _ _ (hmac_sharing_parameters_array.format r.params_array f.params_array_fits)

  pub confined :
      (r : ComputeSharedHmacRequest HmacSharingParametersArray) → Confined (serialize r) deserialize
  unfolding serialize deserialize
  confined r = Confined-into _ _ (hmac_sharing_parameters_array.confined r.params_array)

  pub size_counts :
      (r : ComputeSharedHmacRequest HmacSharingParametersArray)
      → Fits r
      → length (bytes r) < pointer_mod
      → serialized_size r ≡ length (bytes r)
  unfolding serialized_size
  size_counts r f lt =
      omega (arith, hmac_sharing_parameters_array.size_counts r.params_array f.params_array_fits)

  abbrev pub codec : Serializable (ComputeSharedHmacRequest HmacSharingParametersArray)
  codec = record {
    serialized_size = serialized_size;
    serialize = serialize;
    deserialize = deserialize;
    bytes = bytes;
    Fits = Fits;
    loads = loads;
    size_counts = size_counts;
    format = format;
    confined = confined;
  }
