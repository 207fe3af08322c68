-- ===== src/Messages/Hmac/Params.antt =====
-- GetHmacSharingParametersResponse: HmacSharingParameters, whose methods are declared only.
use device_xiaomi_dash_twrp.Prelude.{ℕ, ◌<◌, ◌≡◌, List, length, arith}
use device_xiaomi_dash_twrp.Memory.{Put, Get, into, pointer_mod}
use device_xiaomi_dash_twrp.Memory.Format.{Format, Confined, Format-into, Confined-into}
use device_xiaomi_dash_twrp.Serializable.Interface.{External}
use device_xiaomi_dash_twrp.Serializable.Contract.{Serializable}

pub record GetHmacSharingParametersResponse (HmacSharingParameters : Type 0) : Type 0 where
  pub params : HmacSharingParameters

module _ (x : External) {HmacSharingParameters : Type 0}
    (hmac_sharing_parameters : Serializable HmacSharingParameters) where
  pub serialized_size : GetHmacSharingParametersResponse HmacSharingParameters → ℕ
  serialized_size r = hmac_sharing_parameters.serialized_size r.params

  pub serialize : GetHmacSharingParametersResponse HmacSharingParameters → Put
  serialize r = hmac_sharing_parameters.serialize r.params

  pub deserialize : Get (GetHmacSharingParametersResponse HmacSharingParameters)
  deserialize =
      into (λ r. r.params) (λ r v. record r { params = v }) hmac_sharing_parameters.deserialize

  -- The members in the order in which they are written.
  abbrev pub bytes : GetHmacSharingParametersResponse HmacSharingParameters → List ℕ
  bytes r = hmac_sharing_parameters.bytes r.params

  -- Every member fits the width at which it is written.
  pub record Fits (r : GetHmacSharingParametersResponse HmacSharingParameters) : Type 0 where
    pub params_fits : hmac_sharing_parameters.Fits r.params

  -- What reading `r` makes of `old`.
  abbrev pub loads :
      GetHmacSharingParametersResponse HmacSharingParameters
      → GetHmacSharingParametersResponse HmacSharingParameters
      → GetHmacSharingParametersResponse HmacSharingParameters
  loads r old = record { params = hmac_sharing_parameters.loads r.params old.params }

  pub format :
      (r : GetHmacSharingParametersResponse HmacSharingParameters)
      → Fits r
      → Format (serialize r) deserialize (bytes r) (loads r)
  unfolding serialize deserialize
  format r f = Format-into _ _ (hmac_sharing_parameters.format r.params f.params_fits)

  pub confined :
      (r : GetHmacSharingParametersResponse HmacSharingParameters)
      → Confined (serialize r) deserialize
  unfolding serialize deserialize
  confined r = Confined-into _ _ (hmac_sharing_parameters.confined r.params)

  pub size_counts :
      (r : GetHmacSharingParametersResponse HmacSharingParameters)
      → Fits r
      → length (bytes r) < pointer_mod
      → serialized_size r ≡ length (bytes r)
  unfolding serialized_size
  size_counts r f lt = omega (arith, hmac_sharing_parameters.size_counts r.params f.params_fits)

  abbrev pub codec : Serializable (GetHmacSharingParametersResponse HmacSharingParameters)
  codec = record {
    serialized_size = serialized_size;
    serialize = serialize;
    deserialize = deserialize;
    bytes = bytes;
    Fits = Fits;
    loads = loads;
    size_counts = size_counts;
    format = format;
    confined = confined;
  }
