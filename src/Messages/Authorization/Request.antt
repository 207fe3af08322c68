-- ===== src/Messages/Authorization/Request.antt =====
-- VerifyAuthorizationRequest. AuthorizationSet and HardwareAuthToken are parameters: their methods are
-- declared only.
use device_xiaomi_dash_twrp.Prelude.{
  ℕ, ◌+◌, ◌%◌, ◌<◌, ◌^◌, ◌≡◌, ◌++◌, List, length, length-append, arith,
}
use device_xiaomi_dash_twrp.Memory.{Put, ◌>>◌, Get, ◌&&>◌, into, pointer_mod}
use device_xiaomi_dash_twrp.Memory.Bytes.{le_bytes, length-le_bytes}
use device_xiaomi_dash_twrp.Memory.Format.{Format, Confined, ◌&f◌, ◌&c◌, Format-into, Confined-into}
use device_xiaomi_dash_twrp.Serializable.Interface.{External}
use device_xiaomi_dash_twrp.Serializable.Contract.{Serializable}
use device_xiaomi_dash_twrp.Serializable.{append_uint64_to_buf, copy_uint64_from_buf}
use device_xiaomi_dash_twrp.Serializable.Codecs.{uint64-Format, uint64-Confined}

pub record VerifyAuthorizationRequest (AuthorizationSet : Type 0) (HardwareAuthToken : Type 0)
    : Type 0 where
  pub challenge : ℕ
  pub parameters_to_verify : AuthorizationSet
  pub auth_token : HardwareAuthToken

module _ (x : External) {AuthorizationSet : Type 0} {HardwareAuthToken : Type 0}
    (authorization_set : Serializable AuthorizationSet)
    (hardware_auth_token : Serializable HardwareAuthToken) where
  pub serialized_size : VerifyAuthorizationRequest AuthorizationSet HardwareAuthToken → ℕ
  serialized_size r =
      (8
        + authorization_set.serialized_size r.parameters_to_verify
        + hardware_auth_token.serialized_size r.auth_token)
      % pointer_mod

  pub serialize : VerifyAuthorizationRequest AuthorizationSet HardwareAuthToken → Put
  serialize r = do
    append_uint64_to_buf x r.challenge
    authorization_set.serialize r.parameters_to_verify
    hardware_auth_token.serialize r.auth_token

  pub deserialize : Get (VerifyAuthorizationRequest AuthorizationSet HardwareAuthToken)
  deserialize =
      into (λ r. r.challenge) (λ r v. record r { challenge = v }) (copy_uint64_from_buf x)
      &&> into (λ r. r.parameters_to_verify) (λ r v. record r { parameters_to_verify = v })
          authorization_set.deserialize
      &&> into (λ r. r.auth_token) (λ r v. record r { auth_token = v })
          hardware_auth_token.deserialize

  -- The members in the order in which they are written.
  abbrev pub bytes : VerifyAuthorizationRequest AuthorizationSet HardwareAuthToken → List ℕ
  bytes r =
      le_bytes 8 r.challenge
      ++ (authorization_set.bytes r.parameters_to_verify ++ hardware_auth_token.bytes r.auth_token)

  -- Every member fits the width at which it is written.
  pub record Fits (r : VerifyAuthorizationRequest AuthorizationSet HardwareAuthToken) : Type 0 where
    pub challenge_fits : r.challenge < 2 ^ 64
    pub parameters_to_verify_fits : authorization_set.Fits r.parameters_to_verify
    pub auth_token_fits : hardware_auth_token.Fits r.auth_token

  -- What reading `r` makes of `old`.
  abbrev pub loads :
      VerifyAuthorizationRequest AuthorizationSet HardwareAuthToken
      → VerifyAuthorizationRequest AuthorizationSet HardwareAuthToken
      → VerifyAuthorizationRequest AuthorizationSet HardwareAuthToken
  loads r old = record {
    challenge = r.challenge;
    parameters_to_verify = authorization_set.loads r.parameters_to_verify old.parameters_to_verify;
    auth_token = hardware_auth_token.loads r.auth_token old.auth_token;
  }

  pub format :
      (r : VerifyAuthorizationRequest AuthorizationSet HardwareAuthToken)
      → Fits r
      → Format (serialize r) deserialize (bytes r) (loads r)
  unfolding serialize deserialize
  format r f =
      Format-into _ _ (uint64-Format x r.challenge f.challenge_fits)
      &f Format-into _ _
          (authorization_set.format r.parameters_to_verify f.parameters_to_verify_fits)
      &f Format-into _ _ (hardware_auth_token.format r.auth_token f.auth_token_fits)

  pub confined :
      (r : VerifyAuthorizationRequest AuthorizationSet HardwareAuthToken)
      → Confined (serialize r) deserialize
  unfolding serialize deserialize
  confined r =
      Confined-into _ _ (uint64-Confined x r.challenge)
      &c Confined-into _ _ (authorization_set.confined r.parameters_to_verify)
      &c Confined-into _ _ (hardware_auth_token.confined r.auth_token)

  pub size_counts :
      (r : VerifyAuthorizationRequest AuthorizationSet HardwareAuthToken)
      → Fits r
      → length (bytes r) < pointer_mod
      → serialized_size r ≡ length (bytes r)
  unfolding serialized_size
  size_counts r f lt = omega (
    arith,
    length-append {0} (le_bytes 8 r.challenge)
        (authorization_set.bytes r.parameters_to_verify ++ hardware_auth_token.bytes r.auth_token),
    length-append {0} (authorization_set.bytes r.parameters_to_verify)
        (hardware_auth_token.bytes r.auth_token),
    length-le_bytes 8 r.challenge,
    authorization_set.size_counts r.parameters_to_verify f.parameters_to_verify_fits,
    hardware_auth_token.size_counts r.auth_token f.auth_token_fits,
  )

  abbrev pub codec : Serializable (VerifyAuthorizationRequest AuthorizationSet HardwareAuthToken)
  codec = record {
    serialized_size = serialized_size;
    serialize = serialize;
    deserialize = deserialize;
    bytes = bytes;
    Fits = Fits;
    loads = loads;
    size_counts = size_counts;
    format = format;
    confined = confined;
  }
