-- ===== src/Messages/Timestamp/Token.antt =====
-- TimestampToken.
use device_xiaomi_dash_twrp.Prelude.{
  ℕ, ◌+◌, ◌%◌, ◌<◌, ◌^◌, ◌≡◌, ◌++◌, List, length, length-append, arith,
}
use device_xiaomi_dash_twrp.Memory.{Put, ◌>>◌, Get, ◌&&>◌, into, pointer_mod}
use device_xiaomi_dash_twrp.Memory.Bytes.{le_bytes, length-le_bytes}
use device_xiaomi_dash_twrp.Memory.Format.{Format, Confined, ◌&f◌, ◌&c◌, Format-into, Confined-into}
use device_xiaomi_dash_twrp.Serializable.Interface.{External}
use device_xiaomi_dash_twrp.Serializable.Contract.{Serializable}
use device_xiaomi_dash_twrp.Serializable.{
  append_uint32_to_buf, append_uint64_to_buf, copy_uint32_from_buf, copy_uint64_from_buf,
}
use device_xiaomi_dash_twrp.Serializable.Codecs.{
  uint32-Format, uint64-Format, uint32-Confined, uint64-Confined,
}
use device_xiaomi_dash_twrp.Blob.{Blob}
use device_xiaomi_dash_twrp.Blob.Codec.{blob}

pub record TimestampToken : Type 0 where
  pub challenge : ℕ
  pub timestamp : ℕ
  pub security_level : ℕ
  pub mac : Blob

module _ (x : External) where
  pub serialized_size : TimestampToken → ℕ
  serialized_size r = (8 + 8 + 4 + (blob x).serialized_size r.mac) % pointer_mod

  pub serialize : TimestampToken → Put
  serialize r = do
    append_uint64_to_buf x r.challenge
    append_uint64_to_buf x r.timestamp
    append_uint32_to_buf x r.security_level
    (blob x).serialize r.mac

  pub deserialize : Get TimestampToken
  deserialize =
      into (λ r. r.challenge) (λ r v. record r { challenge = v }) (copy_uint64_from_buf x)
      &&> into (λ r. r.timestamp) (λ r v. record r { timestamp = v }) (copy_uint64_from_buf x)
      &&> into (λ r. r.security_level) (λ r v. record r { security_level = v })
          (copy_uint32_from_buf x)
      &&> into (λ r. r.mac) (λ r v. record r { mac = v }) (blob x).deserialize

  -- The members in the order in which they are written.
  abbrev pub bytes : TimestampToken → List ℕ
  bytes r =
      le_bytes 8 r.challenge
      ++ (le_bytes 8 r.timestamp ++ (le_bytes 4 r.security_level ++ (blob x).bytes r.mac))

  -- Every member fits the width at which it is written.
  pub record Fits (r : TimestampToken) : Type 0 where
    pub challenge_fits : r.challenge < 2 ^ 64
    pub timestamp_fits : r.timestamp < 2 ^ 64
    pub security_level_fits : r.security_level < 2 ^ 32
    pub mac_fits : (blob x).Fits r.mac

  -- What reading `r` makes of `old`.
  abbrev pub loads : TimestampToken → TimestampToken → TimestampToken
  loads r old = record {
    challenge = r.challenge;
    timestamp = r.timestamp;
    security_level = r.security_level;
    mac = r.mac;
  }

  pub format : (r : TimestampToken) → Fits r → Format (serialize r) deserialize (bytes r) (loads r)
  unfolding serialize deserialize
  format r f =
      Format-into _ _ (uint64-Format x r.challenge f.challenge_fits)
      &f Format-into _ _ (uint64-Format x r.timestamp f.timestamp_fits)
      &f Format-into _ _ (uint32-Format x r.security_level f.security_level_fits)
      &f Format-into _ _ ((blob x).format r.mac f.mac_fits)

  pub confined : (r : TimestampToken) → Confined (serialize r) deserialize
  unfolding serialize deserialize
  confined r =
      Confined-into _ _ (uint64-Confined x r.challenge)
      &c Confined-into _ _ (uint64-Confined x r.timestamp)
      &c Confined-into _ _ (uint32-Confined x r.security_level)
      &c Confined-into _ _ ((blob x).confined r.mac)

  pub size_counts :
      (r : TimestampToken)
      → Fits r
      → length (bytes r) < pointer_mod
      → serialized_size r ≡ length (bytes r)
  unfolding serialized_size
  size_counts r f lt = omega (
    arith,
    length-append {0} (le_bytes 8 r.challenge)
        (le_bytes 8 r.timestamp ++ (le_bytes 4 r.security_level ++ (blob x).bytes r.mac)),
    length-append {0} (le_bytes 8 r.timestamp)
        (le_bytes 4 r.security_level ++ (blob x).bytes r.mac),
    length-append {0} (le_bytes 4 r.security_level) ((blob x).bytes r.mac),
    length-le_bytes 8 r.challenge,
    length-le_bytes 8 r.timestamp,
    length-le_bytes 4 r.security_level,
    (blob x).size_counts r.mac f.mac_fits,
  )

  abbrev pub codec : Serializable TimestampToken
  codec = record {
    serialized_size = serialized_size;
    serialize = serialize;
    deserialize = deserialize;
    bytes = bytes;
    Fits = Fits;
    loads = loads;
    size_counts = size_counts;
    format = format;
    confined = confined;
  }
