-- ===== src/Messages/Timestamp/Response.antt =====
-- GenerateTimestampTokenResponse: the token.
use device_xiaomi_dash_twrp.Prelude.{ℕ, ◌<◌, ◌≡◌, List, length, arith}
use device_xiaomi_dash_twrp.Memory.{Put, Get, into, pointer_mod}
use device_xiaomi_dash_twrp.Memory.Format.{Format, Confined, Format-into, Confined-into}
use device_xiaomi_dash_twrp.Serializable.Interface.{External}
use device_xiaomi_dash_twrp.Serializable.Contract.{Serializable}
use device_xiaomi_dash_twrp.Messages.Timestamp.Token
use device_xiaomi_dash_twrp.Messages.Timestamp.Token.{TimestampToken}

pub record GenerateTimestampTokenResponse : Type 0 where
  pub token : TimestampToken

module _ (x : External) where
  pub serialized_size : GenerateTimestampTokenResponse → ℕ
  serialized_size r = (Token.codec x).serialized_size r.token

  pub serialize : GenerateTimestampTokenResponse → Put
  serialize r = (Token.codec x).serialize r.token

  pub deserialize : Get GenerateTimestampTokenResponse
  deserialize = into (λ r. r.token) (λ r v. record r { token = v }) (Token.codec x).deserialize

  -- The members in the order in which they are written.
  abbrev pub bytes : GenerateTimestampTokenResponse → List ℕ
  bytes r = (Token.codec x).bytes r.token

  -- Every member fits the width at which it is written.
  pub record Fits (r : GenerateTimestampTokenResponse) : Type 0 where
    pub token_fits : (Token.codec x).Fits r.token

  -- What reading `r` makes of `old`.
  abbrev pub loads :
      GenerateTimestampTokenResponse
      → GenerateTimestampTokenResponse
      → GenerateTimestampTokenResponse
  loads r old = record { token = (Token.codec x).loads r.token old.token }

  pub format :
      (r : GenerateTimestampTokenResponse)
      → Fits r
      → Format (serialize r) deserialize (bytes r) (loads r)
  unfolding serialize deserialize
  format r f = Format-into _ _ ((Token.codec x).format r.token f.token_fits)

  pub confined : (r : GenerateTimestampTokenResponse) → Confined (serialize r) deserialize
  unfolding serialize deserialize
  confined r = Confined-into _ _ ((Token.codec x).confined r.token)

  pub size_counts :
      (r : GenerateTimestampTokenResponse)
      → Fits r
      → length (bytes r) < pointer_mod
      → serialized_size r ≡ length (bytes r)
  unfolding serialized_size
  size_counts r f lt = omega (arith, (Token.codec x).size_counts r.token f.token_fits)

  abbrev pub codec : Serializable GenerateTimestampTokenResponse
  codec = record {
    serialized_size = serialized_size;
    serialize = serialize;
    deserialize = deserialize;
    bytes = bytes;
    Fits = Fits;
    loads = loads;
    size_counts = size_counts;
    format = format;
    confined = confined;
  }
