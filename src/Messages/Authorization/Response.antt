-- ===== src/Messages/Authorization/Response.antt =====
-- VerifyAuthorizationResponse: the error once more, and the token, whose methods are declared only.
use device_xiaomi_dash_twrp.Prelude.{
  ℕ, ◌+◌, ◌%◌, ◌<◌, ◌^◌, ◌≡◌, ◌++◌, List, length, length-append, arith,
}
use device_xiaomi_dash_twrp.Memory.{Put, ◌>>◌, Get, ◌&&>◌, into, pointer_mod}
use device_xiaomi_dash_twrp.Memory.Bytes.{le_bytes, length-le_bytes}
use device_xiaomi_dash_twrp.Memory.Format.{Format, Confined, ◌&f◌, ◌&c◌, Format-into, Confined-into}
use device_xiaomi_dash_twrp.Serializable.Interface.{External}
use device_xiaomi_dash_twrp.Serializable.Contract.{Serializable}
use device_xiaomi_dash_twrp.Serializable.{append_uint32_to_buf, copy_uint32_from_buf}
use device_xiaomi_dash_twrp.Serializable.Codecs.{uint32-Format, uint32-Confined}

pub record VerifyAuthorizationResponse (VerificationToken : Type 0) : Type 0 where
  pub error : ℕ
  pub token : VerificationToken

module _ (x : External) {VerificationToken : Type 0}
    (verification_token : Serializable VerificationToken) where
  pub serialized_size : VerifyAuthorizationResponse VerificationToken → ℕ
  serialized_size r = (4 + verification_token.serialized_size r.token) % pointer_mod

  pub serialize : VerifyAuthorizationResponse VerificationToken → Put
  serialize r = do append_uint32_to_buf x r.error; verification_token.serialize r.token

  pub deserialize : Get (VerifyAuthorizationResponse VerificationToken)
  deserialize =
      into (λ r. r.error) (λ r v. record r { error = v }) (copy_uint32_from_buf x)
      &&> into (λ r. r.token) (λ r v. record r { token = v }) verification_token.deserialize

  -- The members in the order in which they are written.
  abbrev pub bytes : VerifyAuthorizationResponse VerificationToken → List ℕ
  bytes r = le_bytes 4 r.error ++ verification_token.bytes r.token

  -- Every member fits the width at which it is written.
  pub record Fits (r : VerifyAuthorizationResponse VerificationToken) : Type 0 where
    pub error_fits : r.error < 2 ^ 32
    pub token_fits : verification_token.Fits r.token

  -- What reading `r` makes of `old`.
  abbrev pub loads :
      VerifyAuthorizationResponse VerificationToken
      → VerifyAuthorizationResponse VerificationToken
      → VerifyAuthorizationResponse VerificationToken
  loads r old = record { error = r.error; token = verification_token.loads r.token old.token }

  pub format :
      (r : VerifyAuthorizationResponse VerificationToken)
      → Fits r
      → Format (serialize r) deserialize (bytes r) (loads r)
  unfolding serialize deserialize
  format r f =
      Format-into _ _ (uint32-Format x r.error f.error_fits)
      &f Format-into _ _ (verification_token.format r.token f.token_fits)

  pub confined :
      (r : VerifyAuthorizationResponse VerificationToken) → Confined (serialize r) deserialize
  unfolding serialize deserialize
  confined r =
      Confined-into _ _ (uint32-Confined x r.error)
      &c Confined-into _ _ (verification_token.confined r.token)

  pub size_counts :
      (r : VerifyAuthorizationResponse VerificationToken)
      → Fits r
      → length (bytes r) < pointer_mod
      → serialized_size r ≡ length (bytes r)
  unfolding serialized_size
  size_counts r f lt = omega (
    arith,
    length-append {0} (le_bytes 4 r.error) (verification_token.bytes r.token),
    length-le_bytes 4 r.error,
    verification_token.size_counts r.token f.token_fits,
  )

  abbrev pub codec : Serializable (VerifyAuthorizationResponse VerificationToken)
  codec = record {
    serialized_size = serialized_size;
    serialize = serialize;
    deserialize = deserialize;
    bytes = bytes;
    Fits = Fits;
    loads = loads;
    size_counts = size_counts;
    format = format;
    confined = confined;
  }
