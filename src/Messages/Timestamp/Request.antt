-- ===== src/Messages/Timestamp/Request.antt =====
-- GenerateTimestampTokenRequest: the challenge.
use device_xiaomi_dash_twrp.Prelude.{ℕ, ◌<◌, ◌^◌, ◌≡◌, List, length, arith}
use device_xiaomi_dash_twrp.Memory.{Put, Get, into, pointer_mod}
use device_xiaomi_dash_twrp.Memory.Bytes.{le_bytes, length-le_bytes}
use device_xiaomi_dash_twrp.Memory.Format.{Format, Confined, Format-into, Confined-into}
use device_xiaomi_dash_twrp.Serializable.Interface.{External}
use device_xiaomi_dash_twrp.Serializable.Contract.{Serializable}
use device_xiaomi_dash_twrp.Serializable.{append_uint64_to_buf, copy_uint64_from_buf}
use device_xiaomi_dash_twrp.Serializable.Codecs.{uint64-Format, uint64-Confined}

pub record GenerateTimestampTokenRequest : Type 0 where
  pub challenge : ℕ

module _ (x : External) where
  pub serialized_size : GenerateTimestampTokenRequest → ℕ
  serialized_size r = 8

  pub serialize : GenerateTimestampTokenRequest → Put
  serialize r = append_uint64_to_buf x r.challenge

  pub deserialize : Get GenerateTimestampTokenRequest
  deserialize = into (λ r. r.challenge) (λ r v. record r { challenge = v }) (copy_uint64_from_buf x)

  -- The members in the order in which they are written.
  abbrev pub bytes : GenerateTimestampTokenRequest → List ℕ
  bytes r = le_bytes 8 r.challenge

  -- Every member fits the width at which it is written.
  pub record Fits (r : GenerateTimestampTokenRequest) : Type 0 where
    pub challenge_fits : r.challenge < 2 ^ 64

  -- What reading `r` makes of `old`.
  abbrev pub loads :
      GenerateTimestampTokenRequest → GenerateTimestampTokenRequest → GenerateTimestampTokenRequest
  loads r old = record { challenge = r.challenge }

  pub format :
      (r : GenerateTimestampTokenRequest)
      → Fits r
      → Format (serialize r) deserialize (bytes r) (loads r)
  unfolding serialize deserialize
  format r f = Format-into _ _ (uint64-Format x r.challenge f.challenge_fits)

  pub confined : (r : GenerateTimestampTokenRequest) → Confined (serialize r) deserialize
  unfolding serialize deserialize
  confined r = Confined-into _ _ (uint64-Confined x r.challenge)

  pub size_counts :
      (r : GenerateTimestampTokenRequest)
      → Fits r
      → length (bytes r) < pointer_mod
      → serialized_size r ≡ length (bytes r)
  unfolding serialized_size
  size_counts r f lt = omega (arith, length-le_bytes 8 r.challenge)

  abbrev pub codec : Serializable GenerateTimestampTokenRequest
  codec = record {
    serialized_size = serialized_size;
    serialize = serialize;
    deserialize = deserialize;
    bytes = bytes;
    Fits = Fits;
    loads = loads;
    size_counts = size_counts;
    format = format;
    confined = confined;
  }
